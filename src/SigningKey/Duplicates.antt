-- ===== src/SigningKey/Duplicates.antt =====
-- findDuplicatePoint of internal/signingkey/signingkey.go: another key on the token with the same
-- public point.
use multivendor_hsm_pki.Prelude.{
  ℕ, Bool, true, false, ◌||◌, String, some, List, [], ◌∷◌, ◌==◌, string_eq, if◌then◌else◌,
}
use multivendor_hsm_pki.Action.{Act, pure, wrap, ◌>>=◌}
use multivendor_hsm_pki.Inventory.{EcdsaKey}
use multivendor_hsm_pki.Pkcs11.{
  public_key, Attribute, class_is, label_is, ec_point_is, attr_label, attr_ec_point, Token,
}
use multivendor_hsm_pki.SigningKey.{Points, KeyError, pkcs, decode_ec_point, same_key}

-- What the inner loop reads: the label and the point, empty where they are absent.
pub record Seen : Type 0 where
  pub label : String
  pub point : List ℕ

unfoldable pub read_seen : List Attribute → Seen → Seen
read_seen [] seen = seen
read_seen (label_is l ∷ attrs) seen = read_seen attrs (record seen { label = l })
read_seen (ec_point_is p ∷ attrs) seen = read_seen attrs (record seen { point = p })
read_seen (_ ∷ attrs) seen = read_seen attrs seen

abbrev pub nothing_seen : Seen
nothing_seen = record { label = ""; point = [] }

abbrev pub is_nil : List ℕ → Bool
is_nil [] = true
is_nil (_ ∷ _) = false

-- Is this another key with the public half `key`?
unfoldable pub is_duplicate : Points → String → String → EcdsaKey → Seen → Bool
is_duplicate points curve own_label key seen =
    if seen.label == own_label || is_nil seen.point
    then false
    else same_key (some key) (decode_ec_point points curve seen.point)

module _ (t : Token) (points : Points) where
  -- `if SameKey(pub, other) { return label, nil }`, and the rest of the loop.
  abbrev stop_at : Bool → String → Act t.S KeyError String → Act t.S KeyError String
  stop_at true label rest = pure label
  stop_at false label rest = rest

  -- The loop over the handles; "" stands for no duplicate.
  unfoldable pub search_duplicate : String → String → EcdsaKey → List ℕ → Act t.S KeyError String
  search_duplicate curve own_label key [] = pure ""
  search_duplicate curve own_label key (h ∷ hs) = do
    attrs ← wrap pkcs (t.get_attributes h (attr_label ∷ attr_ec_point ∷ []))
    stop_at (is_duplicate points curve own_label key (read_seen attrs nothing_seen))
        (read_seen attrs nothing_seen).label (search_duplicate curve own_label key hs)

  unfoldable pub find_duplicate_point : String → EcdsaKey → String → Act t.S KeyError String
  find_duplicate_point own_label key curve = do
    hs ← wrap pkcs (t.find_objects (class_is public_key ∷ []))
    search_duplicate curve own_label key hs
