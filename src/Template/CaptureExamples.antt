-- ===== src/Template/CaptureExamples.antt =====
-- Tests of the captures and the redaction in playbook_render.py, and its theorems at concrete inputs.
use models_utils.Prelude.{◌≡◌, refl, true, false, none, some, List, [], ◌∷◌, Text, codes, All}
use models_utils.Policy.Strings.{strip}
use models_utils.Template.Captures.{
  CaptureSpec, Captured, gate_capture, is_number_text, merge_captures,
}
use models_utils.Template.Redaction.{
  Json, text, object, no_fields, field, escape, is_secret, redact_secrets,
}
use models_utils.Template.SecretLaws.{IsFree, redact_secrets-IsFree}
use models_utils.Template.KeepLaws.{IsKept}
use models_utils.Template.MergeLaws.{IsSafe, captured, as_captures, provide, merge_captures-IsSafe}

abbrev specs : List CaptureSpec
specs =
    record { key = codes "onu"; kind = some (codes "number"); is_multi = false }
    ∷ record { key = codes "macs"; kind = none; is_multi = true }
    ∷ record { key = codes "name"; kind = none; is_multi = false }
    ∷ []

abbrev captures : List (Text × Captured)
captures =
    (codes "onu", captured (codes "-12.5"))
    ∷ (codes "macs", captured (codes "aa:bb\ncc:dd"))
    ∷ (codes "name", captured (codes "a; reboot"))
    ∷ []

kept_two :
    (merge_captures [] captures specs).1
    ≡ (codes "onu", codes "-12.5") ∷ (codes "macs", codes "aa:bb\ncc:dd") ∷ []
unfolding merge_captures
kept_two = refl

no_exponent : is_number_text (codes "1e3") ≡ false
unfolding is_number_text
no_exponent = refl

braces_refused : gate_capture (codes "{{secret.k}}") (codes "text") ≡ none
unfolding gate_capture
braces_refused = refl

merge_captures-IsSafe_example :
    let kept = (merge_captures [] captures specs).1 in
    All (IsSafe specs) kept
    × ((merge_captures [] captures specs).0 ≡ provide [] kept)
    × All (IsKept specs kept) captures
    × ((merge_captures [] (as_captures kept) specs).1 ≡ kept)
merge_captures-IsSafe_example = merge_captures-IsSafe [] [] captures specs

abbrev secrets : List Text
secrets = codes "  " ∷ codes "a-b" ∷ codes "a-bc" ∷ []

abbrev logged : Json
logged = object (field (codes "sent") (text (codes "x a-bc y a\\-b a-b")) no_fields)

redacted :
    redact_secrets logged secrets
    ≡ object (field (codes "sent") (text (codes "x *** y *** ***")) no_fields)
unfolding redact_secrets strip
redacted = refl

redact_secrets-IsFree_example :
    IsFree (codes "a-b") (redact_secrets logged secrets)
    × IsFree (escape (codes "a-b")) (redact_secrets logged secrets)
unfolding strip is_secret
redact_secrets-IsFree_example = redact_secrets-IsFree logged secrets (codes "a-b") refl refl refl
