-- ===== src/Retire/Tests.antt =====
-- A retirement on a toy token (cmd/hsm-pki-keytool/retire.go).
use multivendor_hsm_pki.Prelude.{
  ℕ, pos, ◌≡◌, refl, Bool, true, false, not, String, Option, none, some, List, [], ◌∷◌, ◌==◌,
  nat_eq, string_eq, ok, err, filter,
}
use multivendor_hsm_pki.Action.{◌>>=◌}
use multivendor_hsm_pki.Inventory.{
  Entry, EcdsaKey, Keys, schema, purpose_image, status_active, status_verify_only,
}
use multivendor_hsm_pki.Inventory.Document.{Json}
use multivendor_hsm_pki.Pkcs11.{
  p256, curve_name, public_key, private_key, Attribute, ec_point_is, AttributeType, Object,
  module_error, handles, matches_template, Token, IsToken,
}
use multivendor_hsm_pki.Pkcs11.FindKey.{find_key_by_label}
use multivendor_hsm_pki.SigningKey.{Points, load, same_key, decode_ec_point, read_protection}
use multivendor_hsm_pki.SigningKey.Destroy.{destroy, destroy_halves, destroy_public}
use multivendor_hsm_pki.Retire.{still_active, by_status, find_entry, Desk, retire_signing_key}
use multivendor_hsm_pki.Retire.Ended.{IsDesk, IsLogin, IsRetirement, retire_signing_key_exact}

abbrev label_v1 : String
label_v1 = "image-signing-key-v1"

abbrev old_entry : Entry
old_entry = record {
  label = label_v1;
  purpose = purpose_image;
  curve = "P-256";
  public_key_pem = "a";
  valid_from = 10;
  retired_at = none;
  status = status_verify_only;
}

abbrev active_entry : Entry
active_entry = record old_entry { status = status_active }

active_is_not_retired : find_entry label_v1 (active_entry ∷ []) ≡ err (still_active label_v1)
unfolding find_entry by_status
active_is_not_retired = refl

abbrev no_keys : Keys
no_keys = record { pem_decode = λ text. none; parse_pkix = λ text. none }

abbrev one_document : Json
one_document = record {
  encode = λ inv. none;
  decode = λ text. some (record {
    schema_name = schema;
    version = pos 1;
    generated_at = 1;
    valid_until = 2;
    keys = old_entry ∷ [];
  });
}

-- The objects, and whether the token is logged in.
abbrev State : Type 0
State = List Object × Bool

abbrev points_of : Object → AttributeType → Attribute
points_of o ty = ec_point_is o.ec_point

abbrev toy_token : Token
toy_token = record {
  S = State;
  objects = λ s. s.0;
  find_objects = λ template s. (ok (handles (filter (matches_template template) s.0)), s);
  get_attributes = λ h types s. (ok (ec_point_is (1 ∷ 2 ∷ []) ∷ []), s);
  generate_key_pair = λ req s. (err (module_error 1), s);
  destroy_object = λ h s. (ok tt, (filter (λ o. not (o.handle == h)) s.0, s.1));
}

toy_token-IsToken : IsToken toy_token
toy_token-IsToken = record {
  finds = λ template s. refl;
  find_reads = λ template s. refl;
  get_reads = λ h types s. refl;
  destroys = λ h s. refl;
}

abbrev toy_desk : Desk toy_token
toy_desk = record {
  token_logged_in = λ s. s.1;
  login = λ pin s. (ok tt, (s.0, true));
  logout = λ s. (ok tt, (s.0, false));
  open_session = λ s. (ok tt, s);
  close_session = λ s. (ok tt, s);
}

toy_desk-IsDesk : IsDesk toy_token toy_desk
toy_desk-IsDesk = record {
  login_reads = λ pin s. refl;
  logout_reads = λ s. refl;
  open_reads = λ s. refl;
  close_reads = λ s. refl;
}

toy_desk-IsLogin : IsLogin toy_token toy_desk
toy_desk-IsLogin = record { failed_login = λ pin s e h. cc; logout_clears = λ s. refl }

abbrev pair_of : List ℕ → Option (ℕ × ℕ)
pair_of (x ∷ y ∷ []) = some (x, y)
pair_of _ = none

abbrev toy_points : Points
toy_points = record { unmarshal = λ curve. pair_of; octet_string = λ bytes. none }

abbrev listed : Option EcdsaKey
listed = some (record { curve = "P-256"; x = 1; y = 2 })

abbrev public_half : Object
public_half = record {
  handle = 0;
  class = public_key;
  label = label_v1;
  ec_point = 1 ∷ 2 ∷ [];
  sensitive = [];
  extractable = [];
}

abbrev private_half : Object
private_half = record {
  handle = 1;
  class = private_key;
  label = label_v1;
  ec_point = [];
  sensitive = 1 ∷ [];
  extractable = 0 ∷ [];
}

abbrev held : State
held = (public_half ∷ private_half ∷ [], false)

retired :
    (retire_signing_key toy_token toy_desk toy_points label_v1 p256 listed (some []) held).1
    ≡ ([], false)
unfolding retire_signing_key load find_key_by_label handles matches_template filter curve_name
    decode_ec_point read_protection same_key destroy destroy_halves destroy_public ◌>>=◌
retired = refl

retire_signing_key_exact_example :
    IsRetirement toy_token toy_points label_v1 p256 listed
      (public_half ∷ private_half ∷ [])
      (retire_signing_key toy_token toy_desk toy_points label_v1 p256 listed (some []) held)
retire_signing_key_exact_example =
    retire_signing_key_exact toy_token toy_points label_v1 p256 listed toy_token-IsToken toy_desk
      toy_desk-IsDesk (some []) held
