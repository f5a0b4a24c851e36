-- ===== src/Service/Drain.antt =====
-- The steps that the participants on their way still need.
use heyfil.Base.{
  List-cases, is_some, length, length-append, nat_eq, string_eq, ℕ, zero, suc, ◌+◌, ◌*◌, ◌≤◌, ◌<◌,
  String, ◌≡◌, ap, ◌⊎◌, inl, inr, true, false, [], ◌∷◌, arith,
}
use heyfil.Base.Int.{ℤ, pos_part}
use heyfil.Base.Dict.{lookup}
use heyfil.Service.{
  Storage, Platform, Service, Step, handled, finished, started, dispatched, Reaches, stop, further,
}
use heyfil.Target.{new_target}
use heyfil.Service.Tracking.{tracked, tracked-Reaches}
use heyfil.Service.Invariant.{Invariant, Step-Invariant}
use heyfil.Platform.{Net, Platform}
use heyfil.Store.{Storage}

module _ ⦃p : Platform⦄ where
  -- Nothing waits, is held, or is to be taken in.
  abbrev pub Drained : Service → Type 0
  Drained s = (s.pending ≡ []) × (s.to_check ≡ []) × (s.held ≡ []) × (s.checked ≡ [])

  -- The steps that the participants on their way still need.
  abbrev weight : Service → ℕ
  weight s = 4 * length s.pending + 3 * length s.to_check + 2 * length s.held + length s.checked

  -- A step that brings a participant on.
  abbrev Next : Storage → Service → Type 0
  Next io s = (s' : Service) × Step io s s' × (s'.cancelled ≡ false) × (weight s' < weight s)

  advance :
      (io : Storage) (net : Net) (n : ℤ) (s : Service)
      → Invariant n s
      → s.cancelled ≡ false
      → 0 < pos_part n
      → Drained s ⊎ Next io s
  advance io net n s i live some_checkers =
      let (dispatching, handling, _, checkers) = i.all_run live in
      elim (List-cases s.checked) [
        | inr (t, rest, e) ↦
            let shorter = ap length e in
            inr (_, handled t rest handling e, live, omega (arith, shorter))
        | inl c ↦ elim (List-cases s.held) [
          | inr (t, rest, e) ↦
              let shorter = ap length e in
              let none_checked = ap length c in
              inr (
                _,
                finished [] t rest e (omega (arith, none_checked)),
                live,
                omega (arith, shorter, none_checked, length-append s.checked (t ∷ [])),
              )
          | inl h ↦ elim (List-cases s.to_check) [
            | inr (t, rest, e) ↦
                let shorter = ap length e in
                let none_held = ap length h in
                inr (
                  _,
                  started net t rest e (omega (arith, none_held, checkers, some_checkers)),
                  live,
                  omega (arith, shorter, none_held),
                )
            | inl w ↦ elim (List-cases s.pending) [
              | inr (mid, rest, e) ↦
                  let shorter = ap length e in
                  let none_waits = ap length w in
                  inr (
                    _,
                    dispatched mid rest dispatching e (omega (arith, none_waits)),
                    live,
                    omega (
                      arith,
                      shorter,
                      none_waits,
                      length-append s.to_check (new_target mid ∷ []),
                    ),
                  )
              | inl q ↦ inl (q, w, h, c)
            ]
          ]
        ]
      ]

  drain :
      (io : Storage) (net : Net) (n : ℤ) (k : ℕ) (s : Service)
      → weight s ≤ k
      → Invariant n s
      → s.cancelled ≡ false
      → 0 < pos_part n
      → (s' : Service) × Reaches io s s' × (s'.cancelled ≡ false) × Drained s'
  drain io net n zero s small i live some_checkers =
      elim (advance io net n s i live some_checkers) [
        | inl done ↦ (s, stop, live, done)
        | inr (s', step, live', less) ↦ absurd (omega (arith, small, less))
      ]
  drain io net n (suc k) s small i live some_checkers =
      elim (advance io net n s i live some_checkers) [
        | inl done ↦ (s, stop, live, done)
        | inr (s', step, live', less) ↦
            let (end, run, live'', done) =
              drain io net n k s' (omega (arith, small, less)) (Step-Invariant io n step i) live'
                some_checkers in
            (end, further step run, live'', done)
      ]

  tracked-Drained :
      (mid : String) (s : Service)
      → Drained s
      → tracked mid s ≡ true
      → is_some (lookup mid s.hf.targets) ≡ true
  unfolding tracked
  tracked-Drained mid s (q, w, h, c) t = (rw (q, w, h, c) at t)

  -- With at least one checker and before the context is cancelled, some steps lead from any state
  -- within the bounds to one where nothing waits or is held. There, every participant that was on
  -- its way has a target.
  pub drain_lem :
      (io : Storage) (net : Net) (n : ℤ) (s : Service)
      → Invariant n s
      → s.cancelled ≡ false
      → 0 < pos_part n
      → (s' : Service) × Reaches io s s'
        × Drained s'
        × ((mid : String) → tracked mid s ≡ true → is_some (lookup mid s'.hf.targets) ≡ true)
  drain_lem io net n s i live some_checkers =
      let (s', run, live', done) = drain io net n (weight s) s (omega arith) i live some_checkers in
      (s', run, done, λ mid t. tracked-Drained mid s' done (tracked-Reaches io mid run live' t))
