-- ===== src/Intelligence/Agent/Llm.antt =====
-- crates/intelligence/src/agent.rs: `ReasoningAgent::query_local_llm`, and the summary of an insight.
-- The HTTP client and the JSON values of `serde_json` are an interface.
use Prim.Native.String.{String, ◌++◌}
use mathlib.Core.Option
use atlas_hpc.Base.{
  ℕ, ◌≡◌, refl, sym, ◌∙◌, ap, Bool, false, Option, none, some, List, [], ◌∷◌, arith, Option-cases,
  ◌⊎◌, inl, inr,
}
use atlas_hpc.Base.Float.{Float}
use atlas_hpc.Base.Outcome.{Outcome, done, panic, ◌>>=◌}
use atlas_hpc.Base.Result.{Result, ok, err, Result-cases}
use atlas_hpc.Intelligence.Agent.{
  Format, Reads, IsAnswering, ReasoningContext, Insight, prompt_summary, conclude, produce_insight,
}

pub record ChatMessage : Type 0 where
  pub role : String
  pub content : String

-- The JSON of the request.
pub record Payload : Type 0 where
  pub model : String
  pub messages : List ChatMessage
  pub stream : Bool

-- `reqwest::blocking` and `serde_json`: `H` is a client, `R` a response, `V` a JSON value. `new` may
-- panic, as when there is no TLS backend or the thread runs an async runtime. An index that a value
-- lacks gives `null`, as with `[]`.
pub record Client (H R V : Type 0) : Type 0 where
  pub new : Outcome H
  pub post : H → String → Payload → Result String R
  pub json : R → Result String V
  pub field : String → V → V
  pub element : ℕ → V → V
  pub as_str : V → Option String
  pub trim : String → String

abbrev pub url : String
url = "http://localhost:11434/v1/chat/completions"

abbrev pub system_prompt : String
system_prompt =
    "You are Atlas-Finance MVP, an elite HFT trading AI. Analyze the causal graph spike and produce a bold, 1-sentence trading insight."

-- `payload`.
abbrev pub payload : String → Payload
payload prompt = record {
  model = "llama3";
  messages =
      record { role = "system"; content = system_prompt }
      ∷ record { role = "user"; content = prompt }
      ∷ [];
  stream = false;
}

module _ {H R V : Type 0} (client : Client H R V) where
  -- `json["choices"][0]["message"]["content"].as_str()`.
  abbrev pub content_of : V → Option String
  content_of json = client.as_str (
      client.field "content"
        (client.field "message" (client.element 0 (client.field "choices" json))))

  -- The request with a client, and what is read of its answer.
  unfoldable pub ask : H → String → Option String
  ask http prompt = elim (client.post http url (payload prompt)) [
    | err e ↦ none
    | ok resp ↦ elim (client.json resp) [
      | err e ↦ none
      | ok json ↦ Option.map client.trim (content_of json)
    ]
  ]

  unfoldable pub query_local_llm : String → Outcome (Option String)
  query_local_llm prompt = do http ← client.new; done (ask http prompt)

  -- The server answers the prompt with this text.
  abbrev pub IsReply : H → String → String → Type 0
  IsReply http prompt content =
      (resp : R) × (json : V) × (client.post http url (payload prompt) ≡ ok resp)
      × (client.json resp ≡ ok json)
      × (content_of json ≡ some content)

  ask_cases :
      (http : H) (prompt : String)
      → ((content : String) × IsReply http prompt content
          × (ask http prompt ≡ some (client.trim content)))
        ⊎ ((ask http prompt ≡ none) × ((content : String) → ¬ IsReply http prompt content))
  unfolding ask
  ask_cases http prompt = elim (Result-cases (client.post http url (payload prompt))) [
    | inr (e, down) ↦ inr (ground arith, λ content (resp, json, up, parsed, text). ground arith)
    | inl (resp, up) ↦ elim (Result-cases (client.json resp)) [
      | inr (e, bad) ↦ inr (
        ground arith,
        λ content (resp', json, up', parsed, text).
            let same : resp' ≡ resp = cc in ground (arith, ap client.json same),
      )
      | inl (json, good) ↦ elim (Option-cases (content_of json)) [
        | inr (content, text) ↦ inl (content, (resp, json, up, good, text), ground arith)
        | inl silent ↦ inr (
          ground arith,
          λ content (resp', json', up', parsed, text).
              let same : resp' ≡ resp = cc in
              let parsed' : client.json resp ≡ ok json' = sym (ap client.json same) ∙ parsed in
              let same_json : json' ≡ json = cc in ground (arith, ap content_of same_json),
        )
      ]
    ]
  ]

module _ {F H R V : Type 0} ⦃f : Float F⦄ (client : Client H R V) (format : Format F) where
  -- If no client can be made, `produce_insight` panics. Otherwise it returns, and the summary of the
  -- insight is the trimmed text that the server answers, after "LLM: ". In every other case, whether
  -- the server cannot be reached, its answer is no JSON or has no such text, it is the prompt.
  pub summary_lem :
      (ctx : ReasoningContext F)
      → let prompt = prompt_summary format ctx in
        let made = produce_insight format (query_local_llm client) ctx in
        (client.new ≡ panic → made ≡ panic)
        × ((http : H)
            → client.new ≡ done http
            → (insight : Insight F) × (made ≡ done insight)
              × (((content : String) × IsReply client http prompt content
                    × (insight.summary ≡ "LLM: " ++ client.trim content))
                  ⊎ ((insight.summary ≡ prompt)
                      × ((content : String) → ¬ IsReply client http prompt content))))
  unfolding produce_insight query_local_llm conclude
  summary_lem ctx = (
    λ stops. rw stops refl,
    λ http up.
        let prompt = prompt_summary format ctx in
        (
          conclude format ctx (ask client http prompt),
          rw up refl,
          elim (ask_cases client http prompt) [
            | inl (content, reply, answer) ↦ inl (content, reply, rw answer refl)
            | inr (nothing, none_there) ↦ inr (rw nothing refl, none_there)
          ],
        ),
  )

-- A client that can be made answers every prompt, if only with nothing.
query-IsAnswering :
    {F D H R V : Type 0} (client : Client H R V) (http : H) (r : Reads F D)
    → client.new ≡ done http
    → r.query_local_llm ≡ query_local_llm client
    → IsAnswering r
unfolding query_local_llm
query-IsAnswering client http r up same prompt =
    let asked = ap (λ q. q prompt) same in (ask client http prompt, asked ∙ rw up refl)
