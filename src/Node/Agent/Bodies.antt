-- ===== src/Node/Agent/Bodies.antt =====
-- The responses of the agent: which bodies are closed.
use vitastor_operator.Prelude.{
  ◌+◌, String, ◌≡◌, Bool, true, false, not, ◌&&◌, arith, count, if◌then◌else◌,
}
use vitastor_operator.Flow.{Event, Flow, ok, err, body_opened, body_closed, next, ◌>>=◌}
use vitastor_operator.Api.Laws.{is_ok}
use vitastor_operator.Api.{Api}
use vitastor_operator.Node.Agent.{fetch}

abbrev pub is_opening : Event → Bool
is_opening (body_opened b) = true
is_opening _ = false

abbrev pub is_closing : Event → Bool
is_closing (body_closed b) = true
is_closing _ = false

abbrev pub goes_on : {A : Type 0} → Flow A → Bool
goes_on (next a) = true
goes_on _ = false

module _ {W : Type 0} (api : Api W) where
  -- The agent answers, and its answer cannot be read to the end.
  abbrev pub is_cut_off : String → W → Bool
  is_cut_off url w = elim (api.host.http_get url w).0 [
    | ok body ↦ not (is_ok (api.host.read_all body (api.host.http_get url w).1).0)
    | err e ↦ false
  ]

  -- A request closes the body that it opened, except one that cannot be read, which stays open. It
  -- goes on exactly when the agent answers and its answer can be read.
  pub fetch_leaks :
      (url : String) (w : W)
      → (count is_opening (fetch api url w).events
          ≡ count is_closing (fetch api url w).events + (if is_cut_off url w then 1 else 0))
        × (goes_on (fetch api url w).flow
            ≡ (is_ok (api.host.http_get url w).0 && not (is_cut_off url w)))
  unfolding fetch ◌>>=◌
  fetch_leaks url w = (ground arith, ground arith)
