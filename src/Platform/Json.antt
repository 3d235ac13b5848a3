-- ===== src/Platform/Json.antt =====
-- Structured texts and JSON objects.
--
-- A key such as f"shipment:{shipment.id}:{action}:{request_id}" is the concatenation of its parts,
-- kept as a tree: equal trees spell equal texts, and since ids are UUIDs of one length and the
-- literal parts are fixed, different trees of one template spell different texts.
use Prim.Native.String.{String}
use package.text.Mathlib.Text.{◌==◌ as str_eq}
use package.text.Mathlib.TextPositions.{eq_refl}
use yitu.Base.{ℕ, ◌≡◌, Bool, true, false, ◌&&◌, List, ◌==◌, ==_self, arith}

infixr 66 ◌⊹◌
pub data Key : Type 0 where
  lit : String → Key
  ident : ℕ → Key
  ◌⊹◌ : Key → Key → Key

unfoldable pub key_eq : Key → Key → Bool
key_eq (lit s) (lit t) = str_eq s t
key_eq (ident m) (ident n) = m == n
key_eq (j ⊹ k) (l ⊹ m) = key_eq j l && key_eq k m
key_eq _ _ = false

pub key_eq_refl : (k : Key) → key_eq k k ≡ true
unfolding key_eq
key_eq_refl (lit s) = eq_refl s
key_eq_refl (ident n) = ==_self n
key_eq_refl (j ⊹ k) = ground (arith, key_eq_refl j, key_eq_refl k)

pub data Value : Type 0 where
  str : Key → Value
  number : ℕ → Value
  flag : Bool → Value
  null : Value
  fields : List (String × Key) → Value

abbrev pub Object : Type 0
Object = List (String × Value)
