-- ===== src/Logging/Tests.antt =====
-- Diagnostics at small inputs, and the theorems at them.
use ipa_now.Common.{ℕ, ◌≡◌, refl, List, [], ◌∷◌, codes, member, has_prefix, same, joined}
use ipa_now.Common.Sorting.{sorted, insert_sorted}
use ipa_now.Logging.{
  Entries, unbroken, detail, cut, fields, present, look_up, precedes, chain, chained, parts,
}
use ipa_now.Logging.Redact.{
  redact, replace_all, secret_pair, bearer, bearer_token, keyword, secret_value, quoted, skip_some,
  skip_while, fold_word, fold_letter, ascii_letter,
}
use ipa_now.Logging.Line.{IsLine, diagnostics-AreLines}
use ipa_now.Logging.Allowed.{fields-Allowed}

redacts_pair :
    redact (codes "Apple token = \"a b\" and password:x;y")
    ≡ codes "Apple token = [redacted] and password: [redacted];y"
unfolding redact replace_all secret_pair bearer bearer_token keyword secret_value quoted skip_some
    skip_while fold_word fold_letter ascii_letter member has_prefix
redacts_pair = refl

redacts_bearer : redact (codes "Bearer abc, tokens: 1") ≡ codes "bearer [redacted], tokens: 1"
unfolding redact replace_all secret_pair bearer bearer_token keyword secret_value quoted skip_some
    skip_while fold_word fold_letter ascii_letter member has_prefix
redacts_bearer = refl

-- With the long s
redacts_folded : redact (197 ∷ 191 ∷ codes "ecret=1") ≡ 197 ∷ 191 ∷ codes "ecret=1"
unfolding redact replace_all secret_pair bearer bearer_token keyword secret_value quoted skip_some
    skip_while fold_word fold_letter ascii_letter member has_prefix
redacts_folded = refl

abbrev some_fields : Entries
some_fields =
    (codes "token", codes "1234") ∷ (codes "phase", codes "copy") ∷ (codes "at", codes "2") ∷ []

abbrev allowlist : List (List ℕ)
allowlist = codes "phase" ∷ codes "at" ∷ codes "missing" ∷ []

says_fields : fields some_fields allowlist ≡ codes "at=2 phase=copy"
unfolding fields detail cut unbroken redact replace_all secret_pair bearer bearer_token keyword
    fold_word fold_letter ascii_letter has_prefix present look_up same joined sorted insert_sorted
    precedes
says_fields = refl

says_chain : chain (codes "a:\nb" ∷ codes "a:\nb" ∷ codes "c" ∷ []) ≡ codes "a:; b: c"
unfolding chain chained parts detail cut unbroken redact replace_all secret_pair bearer bearer_token
    keyword fold_word fold_letter ascii_letter has_prefix same
says_chain = refl

diagnostics-AreLines_example :
    IsLine (detail (codes "two\nlines"))
    × IsLine (fields some_fields allowlist)
    × IsLine (chain (codes "a" ∷ []))
diagnostics-AreLines_example =
    diagnostics-AreLines (codes "two\nlines") some_fields allowlist (codes "a" ∷ [])

abbrev other_fields : Entries
other_fields =
    (codes "at", codes "2") ∷ (codes "phase", codes "copy") ∷ (codes "udid", codes "5") ∷ []

fields-Allowed_example : fields some_fields allowlist ≡ fields other_fields allowlist
unfolding look_up same
fields-Allowed_example =
    fields-Allowed some_fields other_fields allowlist (refl, (refl, (refl, tt)))
