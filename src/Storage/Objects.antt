-- ===== src/Storage/Objects.antt =====
-- What `get_or_fail` reads after `set`.
use starkex_data_availabilit.Prelude.{
  ◌≡◌, ◌≢◌, sym, ap, ◌∙◌, some, ◌∷◌, ◌++◌, List_eq, ℕ_eq, drop, length, drop-append,
}
use starkex_data_availabilit.Prelude.Dict
use starkex_data_availabilit.Prelude.Dict.{get-put_self, get-put_ne}
use starkex_data_availabilit.Bytes.{Bytes}
use starkex_data_availabilit.Storage.{Db, DbClass, db_key, get_value, set_value, get_or_fail, set}

append-injective : (p xs ys : Bytes) → p ++ xs ≡ p ++ ys → xs ≡ ys
append-injective p xs ys e = sym (drop-append p xs) ∙ ap (drop (length p)) e ∙ drop-append p ys

-- An object that its class reads back from its own serialization.
abbrev pub ReadsBack : {A : Type 0} → DbClass A → A → Type 0
ReadsBack {A} cls a = (bs : Bytes) × (cls.serialize a ≡ some bs) × (cls.deserialize bs ≡ some a)

module _ {A : Type 0} (cls : DbClass A) where
  pub db_key-injective : (s t : Bytes) → db_key cls s ≡ db_key cls t → s ≡ t
  unfolding db_key
  db_key-injective s t e = ap (drop 1) (append-injective cls.prefix (58 ∷ s) (58 ∷ t) e)

  -- What `set` writes.
  pub set_lem :
      (db : Db) (a : A) (s bs : Bytes)
      → cls.serialize a ≡ some bs
      → set cls db a s ≡ some (Dict.put db (db_key cls s) bs)
  unfolding set set_value
  set_lem db a s bs e = rw e

  pub get_or_fail-put_self :
      (db : Db) (a : A) (s bs : Bytes)
      → cls.deserialize bs ≡ some a
      → get_or_fail cls (Dict.put db (db_key cls s) bs) s ≡ some a
  unfolding get_or_fail get_value
  get_or_fail-put_self db a s bs e = rw (get-put_self db (db_key cls s) bs) e

  pub get_or_fail-put_ne :
      (db : Db) (k s bs : Bytes)
      → k ≢ db_key cls s
      → get_or_fail cls (Dict.put db k bs) s ≡ get_or_fail cls db s
  unfolding get_or_fail get_value
  get_or_fail-put_ne db k s bs ne = rw (get-put_ne db k (db_key cls s) bs ne)
