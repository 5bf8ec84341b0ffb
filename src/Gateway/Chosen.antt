-- ===== src/Gateway/Chosen.antt =====
-- `select_backend` moves weights only: what holds of every configured backend holds of those it leaves,
-- and of the one it selects (src/balancer/load_balancer.cpp).
use ntonix.Balancer.{
  BackendState, BackendSelection, raised, considered, scan, Best, lower_at, finish, select_in,
  healthy_total, is_zero, start_of_scan,
}
use ntonix.Common.Int.{ℤ, pos}
use ntonix.Common.{
  ℕ, zero, suc, Bool, ◌≡◌, List, [], ◌∷◌, Option, some, arith, All, if_intro, option_intro,
  get_elem?,
}
use ntonix.Config.{BackendConfig}
use mathlib.Core.Path.{subst}

state_of : {c b : BackendState} → ◌≡◌ {A = Option BackendState} (some c) (some b) → c ≡ b
state_of e = cc

backend_of :
    {b : BackendConfig} {i : ℕ} {s : BackendSelection}
    → ◌≡◌ {A = Option BackendSelection} (some (record { backend = b; index = i })) (some s)
    → b ≡ s.backend
backend_of e = ground arith

module _ (P : BackendConfig → Type 0) where
  abbrev pub AllStates : List BackendState → Type 0
  AllStates bs = All (λ (s : BackendState). P s.config) bs

  scan-AllStates :
      (p : BackendConfig → Bool) (i : ℕ) (bs : List BackendState) (best : Best)
      → AllStates bs
      → AllStates (scan p i bs best).0
  unfolding scan raised
  scan-AllStates p i [] best h = tt
  scan-AllStates p i (b ∷ bs) best h = (
    if_intro (λ (x : BackendState). P x.config) (p b.config) (λ e. h.0) (λ e. h.0),
    scan-AllStates p (suc i) bs (considered p i (raised p b) best) h.1,
  )

  lower_at-AllStates :
      (i : ℕ) (total : ℤ) (bs : List BackendState) → AllStates bs → AllStates (lower_at i total bs)
  unfolding lower_at
  lower_at-AllStates i total [] h = tt
  lower_at-AllStates zero total (b ∷ bs) h = h
  lower_at-AllStates (suc i) total (b ∷ bs) h = (h.0, lower_at-AllStates i total bs h.1)

  All-get_elem? :
      (bs : List BackendState) (i : ℕ) (b : BackendState)
      → AllStates bs
      → get_elem? bs i ≡ some b
      → P b.config
  All-get_elem? [] i b h e = cc
  All-get_elem? (c ∷ bs) zero b h e = subst (λ (x : BackendState). P x.config) (state_of e) h.0
  All-get_elem? (c ∷ bs) (suc i) b h e = All-get_elem? bs i b h.1 e

  -- The states after a call, and the backend that it selects
  pub record IsChosen (r : List BackendState × Option BackendSelection) : Type 0 where
    pub states : AllStates r.0
    pub chosen : (s : BackendSelection) → r.1 ≡ some s → P s.backend

  finish-IsChosen :
      (total : ℤ) (bs : List BackendState) (best : Best)
      → AllStates bs
      → IsChosen (finish total (bs, best))
  unfolding finish
  finish-IsChosen total bs best h =
      option_intro IsChosen best.selected _ _ (λ e. record { states = h; chosen = λ s e'. cc })
        (λ i e.
          option_intro IsChosen (get_elem? bs i) _ _
            (λ e'. record { states = h; chosen = λ s e''. cc })
            (λ b e'. record {
              states = lower_at-AllStates i total bs h;
              chosen = λ s e''. subst P (backend_of e'') (All-get_elem? bs i b h e');
            }))

  pub select_in-IsChosen :
      (p q : BackendConfig → Bool) (bs : List BackendState)
      → AllStates bs
      → IsChosen (select_in p q bs)
  unfolding select_in
  select_in-IsChosen p q [] h = record { states = tt; chosen = λ s e. cc }
  select_in-IsChosen p q (b ∷ bs) h =
      if_intro IsChosen (is_zero (healthy_total p (b ∷ bs) (pos 0)))
        (λ e. record { states = h; chosen = λ s e'. cc })
        (λ e.
          let (states, best) = scan q 0 (b ∷ bs) start_of_scan in
          finish-IsChosen (healthy_total p (b ∷ bs) (pos 0)) states best
            (scan-AllStates q 0 (b ∷ bs) start_of_scan h))
