-- ===== src/Tests/Agents.antt =====
-- The agent's answers at concrete inputs.
use vitastor_operator.Prelude.{◌≡◌, ◌+◌, count, false}
use vitastor_operator.Flow.{err, failed}
use vitastor_operator.Api.{Api}
use vitastor_operator.Api.Memory.{World}
use vitastor_operator.Node.Agent.{fetch}
use vitastor_operator.Node.Agent.Bodies.{goes_on, is_opening, is_closing, fetch_leaks}
use vitastor_operator.Tests.Samples.{empty, server}

-- The agent hangs up while its answer is read.
abbrev cut_off : Api World
cut_off = record server {
  host = record server.host { read_all = λ body w. (err (failed "unexpected EOF"), w) };
}

fetch_leaks_example :
    (count is_opening (fetch cut_off "http://10.0.0.1:8000/disk" empty).events
      ≡ count is_closing (fetch cut_off "http://10.0.0.1:8000/disk" empty).events + 1)
    × (goes_on (fetch cut_off "http://10.0.0.1:8000/disk" empty).flow ≡ false)
fetch_leaks_example = fetch_leaks cut_off "http://10.0.0.1:8000/disk" empty
