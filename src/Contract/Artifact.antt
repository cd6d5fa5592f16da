-- ===== src/Contract/Artifact.antt =====
-- `AudioArtifactId` of crates/remtene-contracts/src/worker.rs: a non-nil UUID that is written in one
-- way only. The text form of UUIDs is that of the `uuid` crate, taken as a parameter.
use rem_tene_public.Base.{
  ℕ, not, Option, none, some, ◌≡◌, ◌≢◌, sym, ap, ◌∙◌, ◌↔◌, Result, ok, err, arith, ◌==◌,
  if◌then◌else◌,
}
use rem_tene_public.Base.Text.{Text}
use rem_tene_public.Base.Sets.{◌=?◌, nat_eq, list_eq, list_beq_iff}

pub data AudioArtifactIdError : Type 0 where
  invalid_format nil : AudioArtifactIdError

-- `AudioArtifactId` is the number of its UUID.
unfoldable pub from_uuid : ℕ → Result AudioArtifactIdError ℕ
from_uuid value = if value == 0 then err nil else ok value

-- The `uuid` crate: `Uuid::parse_str` reads several forms, `hyphenated` writes one of them.
pub record UuidText : Type 0 where
  pub parse_str : Text → Option ℕ
  pub hyphenated : ℕ → Text
  pub parse_str-hyphenated : (u : ℕ) → parse_str (hyphenated u) ≡ some u

-- `Display`
abbrev pub to_string : UuidText → ℕ → Text
to_string U id = U.hyphenated id

unfoldable pub from_parsed : UuidText → Text → Option ℕ → Result AudioArtifactIdError ℕ
from_parsed U value none = err invalid_format
from_parsed U value (some uuid) =
    if not (U.hyphenated uuid =? value) then err invalid_format else from_uuid uuid

unfoldable pub from_str : UuidText → Text → Result AudioArtifactIdError ℕ
unfolding from_parsed
from_str U value = from_parsed U value (U.parse_str value)

from_parsed_cases :
    (U : UuidText) (value : Text) (id : ℕ) (parsed : Option ℕ)
    → (from_parsed U value parsed ≡ ok id)
      ↔ ((parsed ≡ some id) × (id ≢ 0) × (U.hyphenated id ≡ value))
unfolding from_parsed from_uuid
from_parsed_cases U value id none = (λ h. cc, λ h. cc)
from_parsed_cases U value id (some u) = (
  λ h. ground (arith, list_beq_iff (U.hyphenated u) value),
  λ h. ground (arith, list_beq_iff (U.hyphenated u) value),
)

-- An artifact id is read from exactly one text, the one that it is written as: reading gives an id
-- if and only if the id is not nil and the text is the id's own.
pub from_str-to_string :
    (U : UuidText) (value : Text) (id : ℕ)
    → (from_str U value ≡ ok id) ↔ ((id ≢ 0) × (value ≡ to_string U id))
unfolding from_str
from_str-to_string U value id =
    let (to, fro) = from_parsed_cases U value id (U.parse_str value) in
    (
      λ h. let (p, n, t) = to h in (n, sym t),
      λ (n, t). fro (ap U.parse_str t ∙ U.parse_str-hyphenated id, n, sym t),
    )
