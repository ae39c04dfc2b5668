-- ===== src/Recovery/CrashLoop/Backoff.antt =====
-- The backoff of the crash-loop policy as a function of what happened since its last reset.
use caly.Base.{
  ℕ, zero, suc, ◌+◌, ◌*◌, ◌≤◌, ◌<◌, subst, ◌≡◌, refl, sym, ap, inl, inr, true, false, List, [], ◌∷◌,
  ltb, leb, if◌then◌else◌, arith, Bool-cases, leb→le,
}
use caly.Recovery.CrashLoop.{
  CrashLoopPolicy, with_bounds, grow, on_crash, on_restart_failed, on_stable_tick, min, saturated,
  u64_max, stabilize_window_ms,
}

pub data PolicyEvent : Type 0 where
  crashes restart_fails : PolicyEvent
  ticks : (elapsed : ℕ) → PolicyEvent

abbrev pub handled : CrashLoopPolicy → PolicyEvent → CrashLoopPolicy
handled p crashes = on_crash p
handled p restart_fails = on_restart_failed p
handled p (ticks elapsed) = (on_stable_tick p elapsed).0

unfoldable pub handle_all : CrashLoopPolicy → List PolicyEvent → CrashLoopPolicy
handle_all p [] = p
handle_all p (e ∷ es) = handle_all (handled p e) es

-- What counts since the last reset: the crashes, the setbacks (failed restarts, and crashes after the
-- first), and how long the core has been stable.
pub record Since : Type 0 where
  pub crash_count : ℕ
  pub setbacks : ℕ
  pub stable : ℕ

abbrev pub fresh : Since
fresh = record { crash_count = 0; setbacks = 0; stable = 0 }

abbrev pub counted : Since → PolicyEvent → Since
counted s crashes = record {
  crash_count = saturated (s.crash_count + 1);
  setbacks = if leb 1 s.crash_count then suc s.setbacks else s.setbacks;
  stable = 0;
}
counted s restart_fails = record s { setbacks = suc s.setbacks; stable = 0 }
counted s (ticks elapsed) =
    if leb stabilize_window_ms (saturated (s.stable + elapsed))
    then fresh
    else record s { stable = saturated (s.stable + elapsed) }

unfoldable pub count_all : Since → List PolicyEvent → Since
count_all s [] = s
count_all s (e ∷ es) = count_all (counted s e) es

abbrev pub doubled : ℕ → ℕ → ℕ
doubled n zero = n
doubled n (suc k) = doubled n k * 2

-- The policy's state for what counts since its last reset.
pub record Follows (initial max : ℕ) (p : CrashLoopPolicy) (s : Since) : Type 0 where
  pub initial_kept : p.initial_backoff_ms ≡ initial
  pub max_kept : p.max_backoff_ms ≡ max
  pub backoff_is : p.backoff_ms ≡ min (doubled initial s.setbacks) max
  pub crashes_are : p.consecutive_crashes ≡ s.crash_count
  pub stable_is : p.stable_ms ≡ s.stable
  pub unstable : s.stable < stabilize_window_ms

-- Growing a bounded backoff doubles what stands under the bound.
pub grown : (d max : ℕ) → max ≤ u64_max → min (saturated (min d max * 2)) max ≡ min (d * 2) max
grown d max h = ground arith

with_bounds-Follows :
    (initial max : ℕ) → initial ≤ max → Follows initial max (with_bounds initial max) fresh
unfolding with_bounds
with_bounds-Follows initial max h = record {
  initial_kept = refl;
  max_kept = refl;
  backoff_is = ground arith;
  crashes_are = refl;
  stable_is = refl;
  unstable = leb→le 1 5000 refl;
}

handled-Follows :
    (initial max : ℕ) (p : CrashLoopPolicy) (s : Since) (e : PolicyEvent)
    → initial ≤ max
    → max ≤ u64_max
    → Follows initial max p s
    → Follows initial max (handled p e) (counted s e)
unfolding grow on_crash on_restart_failed on_stable_tick
handled-Follows initial max p s crashes b h f = elim (Bool-cases (leb 1 s.crash_count)) [
  | inl again ↦
      let c = f.crashes_are in
      let more : ltb 1 (saturated (p.consecutive_crashes + 1)) ≡ true = ground arith in
      rw (again, more)
        (record {
          initial_kept = f.initial_kept;
          max_kept = f.max_kept;
          backoff_is = rw (f.max_kept, f.backoff_is) (grown (doubled initial s.setbacks) max h);
          crashes_are = ap (λ n. saturated (n + 1)) f.crashes_are;
          stable_is = refl;
          unstable = leb→le 1 5000 refl;
        })
  | inr first ↦
      let c = f.crashes_are in
      let once : ltb 1 (saturated (p.consecutive_crashes + 1)) ≡ false = ground arith in
      rw (first, once)
        (record {
          initial_kept = f.initial_kept;
          max_kept = f.max_kept;
          backoff_is = f.backoff_is;
          crashes_are = ap (λ n. saturated (n + 1)) f.crashes_are;
          stable_is = refl;
          unstable = leb→le 1 5000 refl;
        })
]
handled-Follows initial max p s restart_fails b h f = record {
  initial_kept = f.initial_kept;
  max_kept = f.max_kept;
  backoff_is = rw (f.max_kept, f.backoff_is) (grown (doubled initial s.setbacks) max h);
  crashes_are = f.crashes_are;
  stable_is = refl;
  unstable = leb→le 1 5000 refl;
}
handled-Follows initial max p s (ticks elapsed) b h f =
    let u = f.unstable in
    let e = f.stable_is in
    let steady : leb stabilize_window_ms p.stable_ms ≡ false = ground arith in
    elim (Bool-cases (leb stabilize_window_ms (saturated (s.stable + elapsed)))) [
      | inl over ↦
          let over' : leb stabilize_window_ms (saturated (p.stable_ms + elapsed)) ≡ true =
            rw e over in
          let after : (on_stable_tick p elapsed).0 ≡ with_bounds initial max =
            rw (steady, over', f.initial_kept, f.max_kept) in
          rw over (
            subst (λ q. Follows initial max q fresh) (sym after)
              (with_bounds-Follows initial max b))
      | inr under ↦
          let under' : leb stabilize_window_ms (saturated (p.stable_ms + elapsed)) ≡ false =
            rw e under in
          let ticked = record s { stable = saturated (s.stable + elapsed) } in
          let after : (on_stable_tick p elapsed).0
              ≡ record p { stable_ms = saturated (p.stable_ms + elapsed) } =
            rw (steady, under') in
          let held : Follows initial max
              (record p { stable_ms = saturated (p.stable_ms + elapsed) }) ticked =
            record {
              initial_kept = f.initial_kept;
              max_kept = f.max_kept;
              backoff_is = f.backoff_is;
              crashes_are = f.crashes_are;
              stable_is = ap (λ n. saturated (n + elapsed)) e;
              unstable = ground arith;
            } in
          rw under (subst (λ q. Follows initial max q ticked) (sym after) held)
    ]

handle_all-Follows :
    (initial max : ℕ) (es : List PolicyEvent) (p : CrashLoopPolicy) (s : Since)
    → initial ≤ max
    → max ≤ u64_max
    → Follows initial max p s
    → Follows initial max (handle_all p es) (count_all s es)
unfolding handle_all count_all
handle_all-Follows initial max [] p s b h f = f
handle_all-Follows initial max (e ∷ es) p s b h f =
    handle_all-Follows initial max es (handled p e) (counted s e) b h
      (handled-Follows initial max p s e b h f)

-- Whatever crashes, failed restarts and stable ticks the policy has seen, its backoff is the initial
-- one doubled for each setback since the last reset, up to the maximum: for bounds in order that a
-- u64 holds.
pub handle_all-backoff :
    (initial max : ℕ) (es : List PolicyEvent)
    → initial ≤ max
    → max ≤ u64_max
    → (handle_all (with_bounds initial max) es).backoff_ms
      ≡ min (doubled initial (count_all fresh es).setbacks) max
handle_all-backoff initial max es b h =
    let start = with_bounds-Follows initial max b in
    (handle_all-Follows initial max es (with_bounds initial max) fresh b h start).backoff_is
