-- ===== src/Node/Osds/Names.antt =====
-- The names of the OSD objects.
use text.Mathlib.TextLemmas.{append_cancel_left}
use vitastor_operator.Prelude.{String, ◌<>◌, ◌≡◌, ◌↔◌, ap}
use vitastor_operator.Prelude.Int.{ℤ}
use vitastor_operator.Go.Strconv.{itoa}
use vitastor_operator.Go.Strconv.Digits.{itoa_injective}
use vitastor_operator.Types.{VitastorNode}
use vitastor_operator.Node.Osds.{get_configuration}

-- Two objects that are constructed, on whatever nodes and paths, have one name exactly when their
-- OSD numbers are the same.
names_distinct :
    (path path' : String) (n n' : ℤ) (node node' : VitastorNode)
    → ((get_configuration path n node).meta.name ≡ (get_configuration path' n' node').meta.name)
      ↔ (n ≡ n')
unfolding get_configuration
names_distinct path path' n n' node node' = (
  λ e. itoa_injective n n' (append_cancel_left "vitastor-osd-" _ _ e),
  λ e. ap (λ k. "vitastor-osd-" <> itoa k) e,
)
