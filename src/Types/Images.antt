-- ===== src/Types/Images.antt =====
-- `Spec.Template.Spec.Containers[0].Image`, read and written; without a container both panic.
use vitastor_operator.Prelude.{String, ◌≡◌, refl, List, [], ◌∷◌, Option, none, some, arith}
use vitastor_operator.Types.Workload.{Container, PodTemplate}

abbrev pub first_image : List Container → Option String
first_image [] = none
first_image (c ∷ cs) = some c.image

abbrev set_first : String → List Container → List Container
set_first image [] = []
set_first image (c ∷ cs) = record c { image = image } ∷ cs

abbrev pub image_of : PodTemplate → Option String
image_of t = first_image t.spec.containers

abbrev pub with_image : String → PodTemplate → PodTemplate
with_image image t = record t {
  spec = record t.spec { containers = set_first image t.spec.containers };
}

set_first-same :
    (cs : List Container) (image : String) → first_image cs ≡ some image → set_first image cs ≡ cs
set_first-same [] image h = refl
set_first-same (c ∷ cs) image h = ground arith

-- To set the image that is there changes nothing.
pub with_image_same :
    (t : PodTemplate) (image : String) → image_of t ≡ some image → with_image image t ≡ t
with_image_same t image h = ground (arith, set_first-same t.spec.containers image)

pub image_of-with_image :
    (t : PodTemplate) (old image : String)
    → image_of t ≡ some old
    → image_of (with_image image t) ≡ some image
image_of-with_image t old image h = ground arith
