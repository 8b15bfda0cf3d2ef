-- ===== src/Session/Periodic.antt =====
-- The periodic thread (thread_event_periodic of event.c): when it wakes, and one round of its loop.
use icwmp.Prelude.{
  ℕ, zero, suc, ◌+◌, ◌-◌, ◌*◌, ◌/◌, ◌%◌, ◌≤◌, ◌<◌, ◌≡◌, ◌⊎◌, inl, inr, sym, ◌∙◌, Bool, true, false,
  ◌||◌, not, [], arith, leb, ◌==◌, if◌then◌else◌, Bool-cases,
}
use native.Mathlib.Nat.{mod-lt, mod-add-div', add-mul, suc-mul}
use icwmp.Event.{periodic}
use icwmp.Session.{Cwmp}
use icwmp.Session.Causes.{add_and_save}

-- The statics `periodic_interval`, `periodic_enable` and `periodic_time`, and the fields `period`,
-- `periodic_enable` and `time` of the configuration.
pub record PeriodicConf : Type 0 where
  pub interval : ℕ
  pub enable : Bool
  pub time : ℕ

-- `periodic_timeout.tv_sec` for a known time. In C the remainder of a negative number is negative, so it is
-- at least 0 only where the interval divides it.
unfoldable pub timeout_of : PeriodicConf → ℕ → ℕ
timeout_of p current_time =
    let since = (current_time - p.time) % p.interval in
    let until = (p.time - current_time) % p.interval in
    if p.time == 0
    then current_time + p.interval
    else if leb p.time current_time
    then current_time + p.interval - since
    else if until == 0
    then current_time + p.interval
    else current_time + until

same_bool : Bool → Bool → Bool
same_bool true b = b
same_bool false b = not b

-- The part of a round behind the wait: `p` are the statics, `conf` the configuration then.
unfoldable pub periodic_round : PeriodicConf → PeriodicConf → Cwmp → PeriodicConf × Cwmp
unfolding add_and_save same_bool
periodic_round p conf c =
    if not (p.interval == conf.interval)
      || (not (same_bool p.enable conf.enable) || not (p.time == conf.time))
    then (conf, c)
    else (p, (add_and_save c periodic []).1)

-- Where the reference time has passed.
since_lem :
    (interval time now : ℕ)
    → 0 < interval
    → time ≤ now
    → let r = now + interval - (now - time) % interval in
      (now < r) × (r ≤ now + interval) × (r ≡ time + ((now - time) / interval + 1) * interval)
since_lem interval time now h le =
    let m = mod-lt (now - time) h in
    let d = mod-add-div' (now - time) interval in
    (omega arith, omega arith, omega (arith, add-mul ((now - time) / interval) 1 interval, d))

-- A positive multiple is one interval more than a multiple.
one_less : (q interval n : ℕ) → q * interval ≡ n → 0 < n → (k : ℕ) × (k * interval + interval ≡ n)
one_less zero interval n e h = absurd (zero_multiple interval n e h)
  where
    zero_multiple : (interval n : ℕ) → 0 * interval ≡ n → 0 < n → ⊥
    zero_multiple interval n e h = omega arith
one_less (suc k) interval n e h = (k, sym (suc-mul k interval) ∙ e)

-- Where the reference time is ahead.
until_lem :
    (interval time now : ℕ)
    → 0 < interval
    → now < time
    → let until = (time - now) % interval in
      let r = if until == 0 then now + interval else now + until in
      (now < r) × (r ≤ now + interval) × ((k : ℕ) × (r + k * interval ≡ time))
until_lem interval time now h lt =
    let m = mod-lt (time - now) h in
    let d = mod-add-div' (time - now) interval in
    elim (Bool-cases ((time - now) % interval == 0)) [
      | inl e ↦
          let (k, f) =
            one_less ((time - now) / interval) interval (time - now) (ground arith) (omega arith) in
          rw (e, if◌then◌else◌) (omega arith, omega arith, (k, omega arith))
      | inr e ↦
          rw (e, if◌then◌else◌) (ground arith, omega arith, ((time - now) / interval, omega arith))
    ]

-- With an interval and a reference time above 0, the time at which the periodic thread wakes comes
-- after now, at most one interval after, and lies a whole number of intervals after the reference
-- time or before it.
pub timeout_of_lem :
    (p : PeriodicConf) (now : ℕ)
    → 0 < p.interval
    → 0 < p.time
    → let r = timeout_of p now in
      (now < r)
      × (r ≤ now + p.interval)
      × ((k : ℕ) × ((r ≡ p.time + k * p.interval) ⊎ (r + k * p.interval ≡ p.time)))
unfolding timeout_of
timeout_of_lem p now h t =
    let known : (p.time == 0) ≡ false = ground arith in
    elim (Bool-cases (leb p.time now)) [
      | inl e ↦
          let (a, b, c) = since_lem p.interval p.time now h (ground arith) in
          rw (known, e, if◌then◌else◌) (a, b, ((now - p.time) / p.interval + 1, inl c))
      | inr e ↦
          let (a, b, (k, c)) = until_lem p.interval p.time now h (ground arith) in
          rw (known, e, if◌then◌else◌) (a, b, (k, inr c))
    ]
