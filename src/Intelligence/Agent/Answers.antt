-- ===== src/Intelligence/Agent/Answers.antt =====
-- What a run of `ReasoningAgent` (crates/intelligence/src/agent.rs) leaves in its cache, and what
-- it answers.
use Prim.Native.String.{String}
use atlas_hpc.Base.{
  ℕ, ◌≡◌, ◌≢◌, refl, sym, ◌∙◌, ap, subst, Bool, true, Option, none, some, List, [], ◌∷◌, ◌==◌,
  nat_eq, In, if◌then◌else◌, arith, nat_beq_iff, Bool-cases, inl, inr, ◌⊎◌,
}
use atlas_hpc.Base.Float.{Float, Narrow}
use atlas_hpc.Base.Outcome.{Outcome, done, >>=-eq-done}
use atlas_hpc.HotTier.DashMap.{DashMap, IsDashMap}
use atlas_hpc.Types.Label.{l_crude_shock}
use atlas_hpc.Types.Signal.{SignalEvent, entity_id}
use atlas_hpc.WarmTier.Graph.{GraphInner}
use atlas_hpc.WarmTier.Activation.{spreading_activation}
use atlas_hpc.Intelligence.Cache
use atlas_hpc.Intelligence.Cache.{CachedReasoning, is_clean}
use atlas_hpc.Intelligence.Cache.Hits.{insert_read, hit_iff}
use atlas_hpc.Intelligence.Agent.{
  Format, Reads, ReasoningContext, Insight, Turn, heartbeat, prompt_summary, conclude,
  produce_insight, find_related, context, settle, run,
}
use atlas_hpc.Intelligence.Agent.Turns.{Handled, skipped, answered, run_cases}

-- The signals that are no heartbeats, by their entities.
unfoldable pub real_ids : {F D : Type 0} → List (SignalEvent F × Reads F D) → List ℕ
real_ids [] = []
real_ids ((signal, r) ∷ rest) =
    if entity_id signal == heartbeat then real_ids rest else entity_id signal ∷ real_ids rest

-- The entities that the insights are about.
unfoldable pub insight_ids : {F D M : Type 0} → List (Turn F D M) → List ℕ
insight_ids [] = []
insight_ids (turn ∷ turns) = elim turn.insight [
  | none ↦ insight_ids turns
  | some i ↦ i.entity_id ∷ insight_ids turns
]

module _ {F : Type 0} ⦃f : Float F⦄ (format : Format F) where
  -- An insight is about the entity of its signal.
  insight_about :
      (query : String → Outcome (Option String)) (ctx : ReasoningContext F) (insight : Insight F)
      → produce_insight format query ctx ≡ done insight
      → insight.entity_id ≡ entity_id ctx.trigger
  unfolding produce_insight conclude
  insight_about query ctx insight h =
      let (answer, asked, made) = >>=-eq-done (query (prompt_summary format ctx)) _ h in
      let e : conclude format ctx answer ≡ insight = cc in
      sym (ap (λ (i : Insight F). i.entity_id) e)

module _ {F D M : Type 0} ⦃f : Float F⦄ ⦃d : Float D⦄ ⦃n : Narrow F D⦄ (format : Format F)
    (t : DashMap CachedReasoning M) (debug : Bool) where
  -- In a run of the agent that returns, each signal that is no heartbeat gets one insight, about
  -- its entity, in order.
  pub run_insights :
      (signals : List (SignalEvent F × Reads F D)) (m m' : M) (turns : List (Turn F D M))
      → run format t debug signals m ≡ done (turns, m')
      → insight_ids turns ≡ real_ids signals
  unfolding run insight_ids real_ids settle
  run_insights [] m m' turns h = let e : turns ≡ [] = cc in ground (arith, e)
  run_insights ((signal, r) ∷ rest) m m' turns h =
      let (turn, more, handled, ran, e) = run_cases format t debug signal r rest m m' turns h in
      let tail = run_insights rest turn.cache m' more ran in
      elim handled [
        | skipped beat same ↦ ground (arith, nat_beq_iff (entity_id signal) heartbeat)
        | answered real related found insight made same ↦
            let about =
              insight_about format r.query_local_llm (context t signal m related) insight made in
            ground (arith, nat_beq_iff (entity_id signal) heartbeat)
      ]

  -- A signal is one of an entity, and its activation gave `related`.
  abbrev pub Gave : ℕ → List ℕ → SignalEvent F × Reads F D → Type 0
  Gave j related s =
      (entity_id s.0 ≡ j)
      × (spreading_activation s.1.activated 2 s.1.instants l_crude_shock ≡ done related)

  module _ (laws : IsDashMap t) where
    -- The cache after a turn that settles `related`.
    settled :
        (signal : SignalEvent F) (r : Reads F D) (m : M) (related : List ℕ) (g : GraphInner F D)
        (insight : Insight F) (j : ℕ)
        → Cache.get_related t j (settle format t debug signal r m related g insight).cache ≡ (
            if Cache.contains t (entity_id signal) m
            then Cache.get_related t j m
            else if entity_id signal == j
            then some related
            else Cache.get_related t j m)
    unfolding settle
    settled signal r m related g insight j =
        let labels = insight.contributing_labels in
        ground (arith, insert_read t laws r.cached_at (entity_id signal) related labels m j)

    turn_keeps :
        (signal : SignalEvent F) (r : Reads F D) (m : M) (turn : Turn F D M)
        → Handled format t debug signal r m turn
        → (j : ℕ) (related : List ℕ) → Cache.get_related t j m ≡ some related
        → Cache.get_related t j turn.cache ≡ some related
    turn_keeps signal r m turn (skipped beat same) j related old = rw same old
    turn_keeps signal r m turn (answered real new found insight made same) j related old =
        let read = settled signal r m new turn.graph insight j in
        let hit = (hit_iff t laws m j).1 (related, old) in
        let e = ap (λ (u : Turn F D M). Cache.get_related t j u.cache) same in
        ground (arith, nat_beq_iff (entity_id signal) j)

    -- An answered turn leaves its entity in the cache.
    turn_hits :
        (signal : SignalEvent F) (r : Reads F D) (m : M) (turn : Turn F D M)
        → Handled format t debug signal r m turn
        → entity_id signal ≢ heartbeat
        → (related : List ℕ) × (Cache.get_related t (entity_id signal) turn.cache ≡ some related)
    turn_hits signal r m turn (skipped beat same) real = absurd (real beat)
    turn_hits signal r m turn (answered real' new found insight made same) real =
        let read = settled signal r m new turn.graph insight (entity_id signal) in
        let e = ap (λ (u : Turn F D M). Cache.get_related t (entity_id signal) u.cache) same in
        elim (Bool-cases (Cache.contains t (entity_id signal) m)) [
          | inl hit ↦
              let (related, old) = (hit_iff t laws m (entity_id signal)).0 hit in
              (related, ground arith)
          | inr miss ↦ (new, ground (arith, nat_beq_iff (entity_id signal) (entity_id signal)))
        ]

    -- What is in the cache after a turn was there, or is what the turn's activation gave.
    turn_source :
        (signal : SignalEvent F) (r : Reads F D) (m : M) (turn : Turn F D M)
        → Handled format t debug signal r m turn
        → (j : ℕ) (related : List ℕ) → Cache.get_related t j turn.cache ≡ some related
        → (Cache.get_related t j m ≡ some related) ⊎ Gave j related (signal, r)
    unfolding find_related
    turn_source signal r m turn (skipped beat same) j related new =
        inl (sym (ap (λ (u : Turn F D M). Cache.get_related t j u.cache) same) ∙ new)
    turn_source signal r m turn (answered real given found insight made same) j related new =
        let read = settled signal r m given turn.graph insight j in
        let e = ap (λ (u : Turn F D M). Cache.get_related t j u.cache) same in
        elim (Bool-cases (Cache.contains t (entity_id signal) m)) [
          | inl hit ↦ inl (ground arith)
          | inr miss ↦ elim (Bool-cases (entity_id signal == j)) [
            | inl same_id ↦ inr (ground (arith, nat_beq_iff (entity_id signal) j), ground arith)
            | inr other ↦ inl (ground arith)
          ]
        ]

    -- If an entity is in the cache before a run of the agent that returns, its answer is the same
    -- after it, whatever signals come and whatever happens to the graph.
    pub run_keeps :
        (signals : List (SignalEvent F × Reads F D)) (m m' : M) (turns : List (Turn F D M))
        → run format t debug signals m ≡ done (turns, m')
        → (j : ℕ) (related : List ℕ) → Cache.get_related t j m ≡ some related
        → Cache.get_related t j m' ≡ some related
    unfolding run
    run_keeps [] m m' turns h j related old =
        let e : m ≡ m' = cc in subst (λ z. Cache.get_related t j z ≡ some related) e old
    run_keeps ((signal, r) ∷ rest) m m' turns h j related old =
        let (turn, more, handled, ran, e) = run_cases format t debug signal r rest m m' turns h in
        run_keeps rest turn.cache m' more ran j related
          (turn_keeps signal r m turn handled j related old)

    -- After a run of the agent that returns, the entity of every signal that is no heartbeat is a
    -- hit.
    pub run_hits :
        (signals : List (SignalEvent F × Reads F D)) (m m' : M) (turns : List (Turn F D M))
        → run format t debug signals m ≡ done (turns, m')
        → (j : ℕ) → In j (real_ids signals)
        → Cache.contains t j m' ≡ true
    unfolding run real_ids
    run_hits [] m m' turns h j i = absurd i
    run_hits ((signal, r) ∷ rest) m m' turns h j i =
        let (turn, more, handled, ran, e) = run_cases format t debug signal r rest m m' turns h in
        elim (Bool-cases (entity_id signal == heartbeat)) [
          | inl beat ↦ run_hits rest turn.cache m' more ran j (ground arith)
          | inr real ↦
              let either : (entity_id signal ≡ j) ⊎ In j (real_ids rest) = ground arith in
              elim either [
                | inl here ↦
                    let (related, hit) =
                      turn_hits signal r m turn handled
                        (λ same. ground (arith, nat_beq_iff (entity_id signal) heartbeat)) in
                    let kept =
                      run_keeps rest turn.cache m' more ran (entity_id signal) related hit in
                    subst (λ k. Cache.contains t k m' ≡ true) here
                      ((hit_iff t laws m' (entity_id signal)).1 (related, kept))
                | inr later ↦ run_hits rest turn.cache m' more ran j later
              ]
        ]

    -- Every related set in the cache after a run of the agent that returns was there before it, or
    -- is what spreading activation from L_CRUDE_SHOCK gave for some signal of that entity.
    pub run_source :
        (signals : List (SignalEvent F × Reads F D)) (m m' : M) (turns : List (Turn F D M))
        → run format t debug signals m ≡ done (turns, m')
        → (j : ℕ) (related : List ℕ) → Cache.get_related t j m' ≡ some related
        → (Cache.get_related t j m ≡ some related)
          ⊎ ((s : SignalEvent F × Reads F D) × In s signals × Gave j related s)
    unfolding run
    run_source [] m m' turns h j related new =
        let e : m' ≡ m = cc in inl (subst (λ z. Cache.get_related t j z ≡ some related) e new)
    run_source ((signal, r) ∷ rest) m m' turns h j related new =
        let (turn, more, handled, ran, e) = run_cases format t debug signal r rest m m' turns h in
        elim (run_source rest turn.cache m' more ran j related new) [
          | inl there ↦ elim (turn_source signal r m turn handled j related there) [
            | inl old ↦ inl old
            | inr gave ↦ inr ((signal, r), inl refl, gave)
          ]
          | inr (s, i, gave) ↦ inr (s, inr i, gave)
        ]
