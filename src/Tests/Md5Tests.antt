-- ===== src/Tests/Md5Tests.antt =====
-- MD5 (md5.c) on the first two texts of the RFC's test suite.
use icwmp.Prelude.{◌+◌, ◌*◌, ◌/◌, ◌%◌, ◌≡◌, refl, [], arith}
use icwmp.Prelude.Text.{codes}
use icwmp.Md5.{
  word, blank, md5_init, md5_update, md5_final, md5_transform, md5_absorb, md5_blocks, add_bits,
  digest_of, memcpy_at,
}
use icwmp.Md5.Update.{IsValid, md5_update-append, md5_update_lem}
use icwmp.Md5.Stream.{feed}
use icwmp.Md5.Final.{rfc_md5, md5_rfc}
use icwmp.Digest.Hex.{cvthex, hex_digit}

empty_text :
    cvthex (md5_final (md5_update (md5_init blank) [])) ≡ codes "d41d8cd98f00b204e9800998ecf8427e"
unfolding md5_final md5_update md5_init md5_transform md5_absorb md5_blocks add_bits digest_of
    memcpy_at cvthex hex_digit
empty_text = refl

abc_text :
    cvthex (md5_final (md5_update (md5_init blank) (codes "abc")))
    ≡ codes "900150983cd24fb0d6963f7d28e17f72"
unfolding md5_final md5_update md5_init md5_transform md5_absorb md5_blocks add_bits digest_of
    memcpy_at cvthex hex_digit
abc_text = refl

md5_rfc_example : md5_final (md5_update (md5_init blank) (codes "abc")) ≡ rfc_md5 (codes "abc")
md5_rfc_example = md5_rfc blank (codes "abc") refl (omega arith)

blank-IsValid : IsValid (md5_init blank)
unfolding md5_init
blank-IsValid = record { low = omega arith; high = omega arith; whole = refl }

md5_update-append_example :
    md5_update (md5_update (md5_init blank) (codes "ab")) (codes "c")
    ≡ md5_update (md5_init blank) (codes "abc")
md5_update-append_example =
    md5_update-append (md5_init blank) (codes "ab") (codes "c") blank-IsValid (omega arith)

md5_update_lem_example :
    let d = md5_update (md5_init blank) (codes "abc") in
    IsValid d
    × (d.bits0 + word * d.bits1
        ≡ ((md5_init blank).bits0 + word * (md5_init blank).bits1 + 24) % 18446744073709551616)
    × ((d.buf, d.block)
        ≡ feed
            (md5_init blank).buf
            (md5_init blank).block
            ((md5_init blank).bits0 / 8 % 64)
            (codes "abc"))
md5_update_lem_example = md5_update_lem (md5_init blank) (codes "abc") blank-IsValid (omega arith)
