-- ===== src/Storage/Gated/RoundTrip.antt =====
-- A gated storage gives back what was written to it.
use starkex_data_availabilit.Prelude.{
  ◌+◌, ◌≡◌, ap, ◌∙◌, some, leb, length, take-append, drop-append, ==_refl, List_eq, ℕ_eq,
  Bool-cases, inl, inr,
}
use starkex_data_availabilit.Prelude.Dict.{get-put_self}
use starkex_data_availabilit.Bytes.{Bytes}
use starkex_data_availabilit.Storage
use starkex_data_availabilit.Storage.Gated.{
  GatedStorage, has_header, compress_value, set_value, resolve, get_value,
}

module _ (magic_header : Bytes) (gated : GatedStorage) (ukey key value : Bytes) where
  resolve-compress_value :
      resolve magic_header
        (compress_value magic_header gated ukey key value).1
        (some (compress_value magic_header gated ukey key value).0)
      ≡ some value
  unfolding resolve compress_value Storage.set_value Storage.get_value
  resolve-compress_value = elim (Bool-cases (has_header magic_header value)) [
    | inl magic ↦ rw (
      magic,
      take-append magic_header ukey,
      ==_refl magic_header,
      drop-append magic_header ukey,
      get-put_self gated.storage1 ukey value,
    )
    | inr plain ↦ elim (Bool-cases (leb (length key + length value) gated.limit)) [
      | inl small ↦ rw (plain, small, plain)
      | inr large ↦ rw (
        plain,
        large,
        take-append magic_header ukey,
        ==_refl magic_header,
        drop-append magic_header ukey,
        get-put_self gated.storage1 ukey value,
      )
    ]
  ]

  -- Reading a key of a gated storage gives the value that was last set there: a small value, a large
  -- one, and one that starts with the magic header itself.
  pub get_value-set_value :
      get_value magic_header (set_value magic_header gated ukey key value) key ≡ some value
  unfolding get_value set_value Storage.set_value Storage.get_value
  get_value-set_value =
      ap (resolve magic_header (compress_value magic_header gated ukey key value).1)
        (get-put_self gated.storage0 key (compress_value magic_header gated ukey key value).0)
      ∙ resolve-compress_value
