-- ===== src/Server/Stop.antt =====
-- `wait_for_stop`: it joins every task and drops what the joins return.
use filestore.Base.{
  ◌≡◌, ◌≢◌, ◌↔◌, ◌⊎◌, inl, inr, refl, Bool, true, false, List, [], ◌∷◌, ◌++◌, map, All,
}
use filestore.Tokio.{Tokio}
use filestore.Server.{
  Phase, binding, bound, serving, stopping, completed, panicked, TaskState, running, finished,
  failed, Poll, waiting, panics, ready, Service, is_done, is_finished, join_server, join_reporter,
  wait_for_stop,
}

-- One of the joins has no result yet.
abbrev pub HasWaiting : List (Poll Bool) → Type 0
HasWaiting [] = ⊥
HasWaiting (p ∷ ps) = (p ≡ waiting) ⊎ HasWaiting ps

-- What `join_all` promises: it is ready when all its futures are, with their results in order.
pub record JoinsAll (join_all : List (Poll Bool) → Poll (List Bool)) : Type 0 where
  pub waits : (ps : List (Poll Bool)) → HasWaiting ps → join_all ps ≡ waiting
  pub collects : (bs : List Bool) → join_all (map ready bs) ≡ ready bs

-- The joins have all returned and the tasks are over, or one still waits and they are not.
abbrev Joined : List (Poll Bool) → Type 0 → Type 0
Joined ps P = ((bs : List Bool) × (ps ≡ map ready bs) × P) ⊎ (HasWaiting ps × ¬ P)

module _ (T : Tokio) where
  -- The server task and all readiness tasks have ended, by themselves or by a panic.
  abbrev pub AllDone : Service T → Type 0
  AllDone s = (is_finished T s ≡ true) × All (λ r. r ≢ running) s.reporter_handles

  join_server-Joined : (p : Phase) → Joined (join_server T p ∷ []) (is_done T p ≡ true)
  unfolding join_server is_done
  join_server-Joined completed = inl (true ∷ [], refl, refl)
  join_server-Joined panicked = inl (false ∷ [], refl, refl)
  join_server-Joined binding = inr (inl refl, λ e. cc)
  join_server-Joined bound = inr (inl refl, λ e. cc)
  join_server-Joined serving = inr (inl refl, λ e. cc)
  join_server-Joined stopping = inr (inl refl, λ e. cc)

  add_result :
      {P Q : Type 0} (b : Bool) (p : Poll Bool) (ps : List (Poll Bool))
      → p ≡ ready b
      → (P → Q)
      → (Q → P)
      → Joined ps P
      → Joined (p ∷ ps) Q
  add_result b p ps e f g (inl (bs, all, done)) = inl (b ∷ bs, rw (e, all), f done)
  add_result b p ps e f g (inr (w, more)) = inr (inr w, λ q. more (g q))

  joins-Joined :
      (rs : List TaskState) (p : Phase)
      → Joined
          (map (join_reporter T) rs ++ join_server T p ∷ [])
          ((is_done T p ≡ true) × All (λ r. r ≢ running) rs)
  unfolding join_reporter
  joins-Joined [] p = elim (join_server-Joined p) [
    | inl (bs, e, done) ↦ inl (bs, e, (done, tt))
    | inr (w, more) ↦ inr (w, λ d. more d.0)
  ]
  joins-Joined (running ∷ rs) p = inr (inl refl, λ d. d.1.0 refl)
  joins-Joined (finished ∷ rs) p =
      add_result true _ _ refl (λ (d, ds). (d, (λ e. cc, ds))) (λ (d, ds). (d, ds.1))
        (joins-Joined rs p)
  joins-Joined (failed ∷ rs) p =
      add_result false _ _ refl (λ (d, ds). (d, (λ e. cc, ds))) (λ (d, ds). (d, ds.1))
        (joins-Joined rs p)

  -- With a `join_all` that joins all its futures, `wait_for_stop` returns exactly when the server
  -- task and all readiness tasks are over, and never panics, also where one of the tasks has
  -- panicked.
  pub wait_for_stop_iff :
      (join_all : List (Poll Bool) → Poll (List Bool)) (s : Service T)
      → JoinsAll join_all
      → ((wait_for_stop T join_all s ≡ ready tt) ↔ AllDone s)
        × (wait_for_stop T join_all s ≢ panics)
  unfolding wait_for_stop is_finished
  wait_for_stop_iff join_all s law = elim (joins-Joined s.reporter_handles s.join_handle) [
    | inl (bs, e, done) ↦ rw (e, law.collects bs) ((λ _. done, λ _. refl), λ p. cc)
    | inr (w, more) ↦ rw (law.waits _ w) ((λ p. cc, λ d. absurd (more d)), λ p. cc)
  ]
