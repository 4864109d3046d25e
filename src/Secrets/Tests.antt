-- ===== src/Secrets/Tests.antt =====
-- A saved session and a run of the broker, and the theorems at them.
use ipa_now.Common.{◌≡◌, refl, false, Option, none, some, List, [], ◌∷◌, codes, all_of}
use ipa_now.Secrets.Broker.{is_code, pending, begin_request, receive, submit, end_request}
use ipa_now.Secrets.Broker.Steps.{
  Step, requests, submits, receives, ends, delivered, accepted, step, steps, start,
}
use ipa_now.Secrets.Broker.Delivery.{Faithful, steps-Faithful}
use ipa_now.Secrets.Session.{Account, Settings, account, load, save}
use ipa_now.Secrets.Session.RoundTrip.{Rereads, load-save}

abbrev a_request : List Step
a_request =
    requests "a"
    ∷ submits "b" (codes "111111")
    ∷ submits "a" (codes "12345")
    ∷ submits "a" (codes "123456")
    ∷ submits "a" (codes "654321")
    ∷ receives
    ∷ ends
    ∷ []

one_delivery :
    (steps a_request start).log
    ≡ delivered "a" (codes "123456") ∷ accepted "a" (codes "123456") ∷ []
unfolding steps step begin_request receive submit end_request is_code all_of
one_delivery = refl

none_pending : pending (steps a_request start).broker ≡ ""
unfolding pending steps step begin_request receive submit end_request is_code all_of
none_pending = refl

steps-Faithful_example : Faithful (steps a_request start).log
steps-Faithful_example = steps-Faithful a_request

abbrev an_account : Account
an_account = record {
  email = "a@b.c";
  password = "typed";
  mac_address = "00:11";
  password_token = "token";
  others = 7 ∷ [];
}

abbrev some_settings : Settings
some_settings = record { email = "a@b.c"; password = "secret"; mac_address = "00:22" }

-- A codec that keeps every field
abbrev decode : Account → Account → Option Account
decode a t = some t

abbrev encode : Account → Account
encode a = a

json :
    (a b : Account)
    → a.email ≡ b.email
    → a.mac_address ≡ b.mac_address
    → a.password_token ≡ ""
    → b.password ≡ ""
    → Rereads decode encode a b
json a b _ _ _ _ = record {
  again = b;
  is_read = refl;
  same_email = refl;
  same_machine = refl;
  same_token = refl;
  same_others = refl;
}

load-save_example :
    load decode encode some_settings false false
      (save decode encode some_settings false false an_account none).1
    ≡ account (record an_account { password = "secret"; mac_address = "00:22" })
unfolding save
load-save_example =
    load-save decode encode json some_settings false false an_account none refl refl refl
