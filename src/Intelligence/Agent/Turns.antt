-- ===== src/Intelligence/Agent/Turns.antt =====
-- One turn of `ReasoningAgent::run` (crates/intelligence/src/agent.rs) by its cases, and a run by its
-- first turn.
use atlas_hpc.Base.{
  ℕ, ◌≡◌, ◌≢◌, sym, ◌∙◌, ap, subst, Bool, none, List, ◌∷◌, ◌==◌, nat_eq, arith, nat_beq_iff,
  Bool-cases, inl, inr,
}
use atlas_hpc.Base.Float.{Float, Narrow}
use atlas_hpc.Base.Outcome.{Outcome, done, ◌>>=◌, >>=-eq-done}
use atlas_hpc.HotTier.DashMap.{DashMap}
use atlas_hpc.Types.Signal.{SignalEvent, entity_id}
use atlas_hpc.Intelligence.Cache.{CachedReasoning}
use atlas_hpc.Intelligence.Agent.{
  Format, Reads, Insight, Turn, heartbeat, produce_insight, find_related, link_spike, context,
  settle, handle, run,
}

module _ {F D M : Type 0} ⦃f : Float F⦄ ⦃d : Float D⦄ ⦃n : Narrow F D⦄ (format : Format F)
    (t : DashMap CachedReasoning M) (debug : Bool) where
  -- A turn: of a heartbeat, or one that settles `related`.
  pub data Handled (signal : SignalEvent F) (r : Reads F D) (m : M) (turn : Turn F D M)
      : Type 0 where
    skipped :
        entity_id signal ≡ heartbeat
        → turn ≡ record { cache = m; graph = r.after; insight = none }
        → Handled signal r m turn
    answered :
        entity_id signal ≢ heartbeat
        → (related : List ℕ) → find_related format t debug (entity_id signal) r m ≡ done related
        → (insight : Insight F)
        → produce_insight format r.query_local_llm (context t signal m related) ≡ done insight
        → turn ≡ settle format t debug signal r m related turn.graph insight
        → Handled signal r m turn

  pub handle_cases :
      (signal : SignalEvent F) (r : Reads F D) (m : M) (turn : Turn F D M)
      → handle format t debug signal r m ≡ done turn
      → Handled signal r m turn
  unfolding handle settle
  handle_cases signal r m turn h = elim (Bool-cases (entity_id signal == heartbeat)) [
    | inl beat ↦ skipped (ground (arith, nat_beq_iff (entity_id signal) heartbeat)) (ground arith)
    | inr other ↦
        let go : List ℕ → Outcome (Turn F D M) = λ related.
          (link_spike format t debug signal r >>= λ graph.
          produce_insight format r.query_local_llm (context t signal m related) >>= λ insight.
          done (settle format t debug signal r m related graph insight)) in
        let ran : (find_related format t debug (entity_id signal) r m >>= go) ≡ done turn =
          ground arith in
        let (related, found, h1) =
          >>=-eq-done (find_related format t debug (entity_id signal) r m) go ran in
        let (graph, linked, h2) = >>=-eq-done (link_spike format t debug signal r) _ h1 in
        let (insight, made, h3) =
          >>=-eq-done (produce_insight format r.query_local_llm (context t signal m related)) _
            h2 in
        let e : settle format t debug signal r m related graph insight ≡ turn = cc in
        let same : graph ≡ turn.graph = ap (λ (u : Turn F D M). u.graph) e in
        answered (ground (arith, nat_beq_iff (entity_id signal) heartbeat)) related found insight
          made (sym e ∙ ap (λ g. settle format t debug signal r m related g insight) same)
  ]

  -- A run by its first turn.
  pub run_cases :
      (signal : SignalEvent F) (r : Reads F D) (rest : List (SignalEvent F × Reads F D)) (m m' : M)
      (turns : List (Turn F D M))
      → run format t debug ((signal, r) ∷ rest) m ≡ done (turns, m')
      → (turn : Turn F D M) × (more : List (Turn F D M)) × Handled signal r m turn
        × (run format t debug rest turn.cache ≡ done (more, m'))
        × (turns ≡ turn ∷ more)
  unfolding run
  run_cases signal r rest m m' turns h =
      let (turn, handled, h1) = >>=-eq-done (handle format t debug signal r m) _ h in
      let ((more, end), ran, h2) = >>=-eq-done (run format t debug rest turn.cache) _ h1 in
      let same : m' ≡ end = cc in
      let e : turns ≡ turn ∷ more = cc in
      (
        turn,
        more,
        handle_cases signal r m turn handled,
        subst (λ (z : M). run format t debug rest turn.cache ≡ done (more, z)) (sym same) ran,
        e,
      )
