-- ===== src/Api/Jwks/Rotation.antt =====
-- resolveKey of internal/api/jwks.go where the endpoint changes its keys, or does not answer.
use evidra_gitops.Base.{
  ℕ, String, ◌≡◌, ◌⊎◌, refl, ap, ◌∙◌, true, false, none, some, [], ◌∷◌, arith, inl, inr, Bool-cases,
}
use evidra_gitops.Base.Dict.{Dict, lookup}
use evidra_gitops.Result.{Error, ok, err}
use evidra_gitops.Api.Jwks.{
  RsaKey, Fetch, KeyLibrary, JwksKeyCache, served_keys, refresh, has_none, is_stale, after_first,
  after_second, found_key, look_up, resolve_key,
}

module _ (l : KeyLibrary) (fetch : Fetch) (c : JwksKeyCache) where
  refresh_served :
      (keys : Dict RsaKey)
      → served_keys l fetch.reply ≡ ok keys
      → refresh l fetch c ≡ (ok tt, record c { keys = keys; last_refresh = fetch.at })
  unfolding refresh
  refresh_served keys served = rw (served, refresh) refl

  refresh_failed :
      (failure : Error)
      → served_keys l fetch.reply ≡ err failure
      → refresh l fetch c ≡ (err failure, c)
  unfolding refresh
  refresh_failed failure failed = rw (failed, refresh) refl

  look_up_found :
      (kid : String) (key : RsaKey)
      → lookup kid c.keys ≡ some key
      → look_up l fetch kid c ≡ (ok key, c)
  unfolding look_up
  look_up_found kid key found = rw (found, look_up) refl

  look_up_served :
      (kid : String) (key : RsaKey) (keys : Dict RsaKey)
      → lookup kid c.keys ≡ none
      → served_keys l fetch.reply ≡ ok keys
      → lookup kid keys ≡ some key
      → (look_up l fetch kid c).0 ≡ ok key
  unfolding look_up after_second found_key
  look_up_served kid key keys absent served found =
      rw (absent, look_up) (rw (refresh_served keys served) (ap found_key found))

has_keys :
    (kid : String) (key : RsaKey) (keys : Dict RsaKey)
    → lookup kid keys ≡ some key
    → has_none keys ≡ false
unfolding lookup
has_keys kid key [] found = absurd (ground arith)
has_keys kid key (entry ∷ keys) found = refl

module _ (l : KeyLibrary) (now : ℕ) (first second : Fetch) (kid : String) (c : JwksKeyCache) where
  resolve_key_fresh :
      is_stale now c ≡ false → resolve_key l now first second kid c ≡ look_up l second kid c
  unfolding resolve_key
  resolve_key_fresh fresh = rw (fresh, resolve_key) refl

  resolve_key_refreshed :
      (keys : Dict RsaKey)
      → is_stale now c ≡ true
      → served_keys l first.reply ≡ ok keys
      → resolve_key l now first second kid c
        ≡ look_up l second kid (record c { keys = keys; last_refresh = first.at })
  unfolding resolve_key after_first
  resolve_key_refreshed keys stale served =
      rw (stale, resolve_key) (ap (after_first l second kid) (refresh_served l first c keys served))

  -- A new key is found: where an endpoint answers with the key, a cache that is stale or has no such key
  -- resolves it.
  pub resolve_key-served :
      (keys : Dict RsaKey) (key : RsaKey)
      → served_keys l first.reply ≡ ok keys
      → served_keys l second.reply ≡ ok keys
      → lookup kid keys ≡ some key
      → (is_stale now c ≡ true) ⊎ (lookup kid c.keys ≡ none)
      → (resolve_key l now first second kid c).0 ≡ ok key
  resolve_key-served keys key at_first at_second found due = elim (Bool-cases (is_stale now c)) [
    | inl stale ↦ rw (resolve_key_refreshed keys stale at_first) (
        rw
          (look_up_found l second (record c { keys = keys; last_refresh = first.at }) kid key found)
          refl)
    | inr fresh ↦ rw (resolve_key_fresh fresh) (elim due [
      | inl stale ↦ absurd (ground (arith, fresh, stale))
      | inr absent ↦ look_up_served l second c kid key keys absent at_second found
    ])
  ]

  -- An outage is bridged: while requests fail, a key of the cache is resolved, and the cache stays.
  pub resolve_key_outage :
      (failure : Error) (key : RsaKey)
      → served_keys l first.reply ≡ err failure
      → lookup kid c.keys ≡ some key
      → resolve_key l now first second kid c ≡ (ok key, c)
  unfolding resolve_key after_first
  resolve_key_outage failure key failed found =
      let bridged = look_up_found l second c kid key found in
      elim (Bool-cases (is_stale now c)) [
        | inr fresh ↦ resolve_key_fresh fresh ∙ bridged
        | inl stale ↦
            rw (stale, resolve_key)
              (ap (after_first l second kid) (refresh_failed l first c failure failed)
                ∙ rw (has_keys kid key c.keys found) bridged)
      ]
