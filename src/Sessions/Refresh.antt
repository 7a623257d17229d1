-- ===== src/Sessions/Refresh.antt =====
-- Refresh tokens (server/utils/authTokens.js). A text is the list of its code units; `hash` is
-- `hashRefreshSecret`, and the random parts are arguments.
use support_block_miner.Sessions.Split.{
  split, join, Lacks, split-Lacks, split-append, join-split, split-All-Lacks,
}
use support_block_miner.Base.{
  none, some, [], ◌∷◌, refl, ◌+◌, ◌*◌, ◌≡◌, ◌≢◌, ◌++◌, ℕ, List, Option, sym, ◌∙◌, All, ap,
}
use mathlib.Core.Path.{subst}

pub record RefreshToken : Type 0 where
  pub token : List ℕ
  pub token_id : List ℕ
  pub token_hash : List ℕ
  pub expires_at : ℕ

pub record ParsedToken : Type 0 where
  pub token_id : List ℕ
  pub secret : List ℕ
  pub token_hash : List ℕ

module _ (hash : List ℕ → List ℕ) where
  -- `createRefreshToken()`; `uuid` and `secret` are what `crypto` gives.
  unfoldable pub create_refresh_token : ℕ → ℕ → List ℕ → List ℕ → RefreshToken
  create_refresh_token now ttl_days uuid secret = record {
    token = uuid ++ b'.' ∷ secret;
    token_id = uuid;
    token_hash = hash secret;
    expires_at = now + ttl_days * 24 * 60 * 60 * 1000;
  }

  -- From the parts on.
  abbrev pub read_parts : List (List ℕ) → Option ParsedToken
  read_parts ((i ∷ is) ∷ (s ∷ ss) ∷ []) =
      some (record { token_id = i ∷ is; secret = s ∷ ss; token_hash = hash (s ∷ ss) })
  read_parts _ = none

  -- `parseRefreshToken(rawToken)`
  unfoldable pub parse_refresh_token : List ℕ → Option ParsedToken
  parse_refresh_token [] = none
  parse_refresh_token (c ∷ cs) = read_parts (split b'.' (c ∷ cs))

  -- A token that was made is read back: its key, its secret and the stored hash. The key and the secret are
  -- not empty and have no dot.
  pub parse_refresh_token-create_refresh_token :
      (now ttl_days i s : ℕ) (is ss : List ℕ)
      → Lacks b'.' (i ∷ is)
      → Lacks b'.' (s ∷ ss)
      → let made = create_refresh_token now ttl_days (i ∷ is) (s ∷ ss) in
        parse_refresh_token made.token
        ≡ some (record { token_id = made.token_id; secret = s ∷ ss; token_hash = made.token_hash })
  unfolding create_refresh_token parse_refresh_token
  parse_refresh_token-create_refresh_token now ttl_days i s is ss h k =
      rw (split-append b'.' (i ∷ is) (s ∷ ss) h, split-Lacks b'.' (s ∷ ss) k) refl

  read_parts-join :
      (parts : List (List ℕ)) (t : ParsedToken)
      → read_parts parts ≡ some t
      → (join b'.' parts ≡ t.token_id ++ b'.' ∷ t.secret)
        × (t.token_hash ≡ hash t.secret)
        × (t.token_id ≢ [])
        × (t.secret ≢ [])
  read_parts-join [] t h = cc
  read_parts-join ((i ∷ is) ∷ (s ∷ ss) ∷ []) t h =
      let e : record { token_id = i ∷ is; secret = s ∷ ss; token_hash = hash (s ∷ ss) } ≡ t = cc in
      subst
        (λ t.
          (join b'.' ((i ∷ is) ∷ (s ∷ ss) ∷ []) ≡ t.token_id ++ b'.' ∷ t.secret)
          × (t.token_hash ≡ hash t.secret)
          × (t.token_id ≢ [])
          × (t.secret ≢ []))
        e (refl, refl, (λ q. cc), (λ q. cc))
  read_parts-join _ t h = cc

  -- A token that is read is its key, a dot and its secret, neither of them empty, with the hash of the
  -- secret.
  pub parse_refresh_token-parts :
      (raw : List ℕ) (t : ParsedToken)
      → parse_refresh_token raw ≡ some t
      → (raw ≡ t.token_id ++ b'.' ∷ t.secret)
        × (t.token_hash ≡ hash t.secret)
        × (t.token_id ≢ [])
        × (t.secret ≢ [])
  unfolding parse_refresh_token
  parse_refresh_token-parts [] t h = cc
  parse_refresh_token-parts (c ∷ cs) t h =
      let (joined, hashed, named, kept) = read_parts-join (split b'.' (c ∷ cs)) t h in
      (sym (join-split b'.' (c ∷ cs)) ∙ joined, hashed, named, kept)

  -- A text that is a token: a key and a secret without dots, neither of them empty, with a dot between, and
  -- the hash of the secret.
  abbrev pub IsToken : List ℕ → ParsedToken → Type 0
  IsToken raw t =
      (raw ≡ t.token_id ++ b'.' ∷ t.secret)
      × (t.token_hash ≡ hash t.secret)
      × (t.token_id ≢ [])
      × (t.secret ≢ [])
      × Lacks b'.' t.token_id
      × Lacks b'.' t.secret

  read_parts-Lacks :
      (parts : List (List ℕ)) (t : ParsedToken)
      → read_parts parts ≡ some t
      → All (Lacks b'.') parts
      → Lacks b'.' t.token_id × Lacks b'.' t.secret
  read_parts-Lacks [] t h all = cc
  read_parts-Lacks ((i ∷ is) ∷ (s ∷ ss) ∷ []) t h all =
      let e : record { token_id = i ∷ is; secret = s ∷ ss; token_hash = hash (s ∷ ss) } ≡ t = cc in
      subst (λ t. Lacks b'.' t.token_id × Lacks b'.' t.secret) e (all.0, all.1.0)
  read_parts-Lacks _ t h all = cc

  read-joined :
      (i s : List ℕ) (hashed : List ℕ)
      → hashed ≡ hash s
      → i ≢ []
      → s ≢ []
      → Lacks b'.' i
      → Lacks b'.' s
      → parse_refresh_token (i ++ b'.' ∷ s)
        ≡ some (record { token_id = i; secret = s; token_hash = hashed })
  unfolding parse_refresh_token
  read-joined [] s hashed same named kept no_dot no_dot' = absurd (named refl)
  read-joined (c ∷ i) [] hashed same named kept no_dot no_dot' = absurd (kept refl)
  read-joined (c ∷ i) (d ∷ s) hashed same named kept no_dot no_dot' =
      rw (split-append b'.' (c ∷ i) (d ∷ s) no_dot, split-Lacks b'.' (d ∷ s) no_dot')
        (ap (λ x. some (record { token_id = c ∷ i; secret = d ∷ s; token_hash = x })) (sym same))

  IsToken-read : (raw : List ℕ) (t : ParsedToken) → IsToken raw t → parse_refresh_token raw ≡ some t
  IsToken-read raw t (joined, hashed, named, kept, no_dot, no_dot') =
      ap parse_refresh_token joined
      ∙ read-joined t.token_id t.secret t.token_hash hashed named kept no_dot no_dot'

  -- A text is read as a token exactly where it is one: a key and a secret without dots, neither of them
  -- empty, with a dot between; the result is these and the hash of the secret.
  pub parse_refresh_token-IsToken :
      (raw : List ℕ) (t : ParsedToken)
      → (parse_refresh_token raw ≡ some t → IsToken raw t)
        × (IsToken raw t → parse_refresh_token raw ≡ some t)
  unfolding parse_refresh_token
  parse_refresh_token-IsToken [] t = ((λ h. cc), IsToken-read [] t)
  parse_refresh_token-IsToken (c ∷ cs) t = (
    (λ h.
        let (joined, hashed, named, kept) = parse_refresh_token-parts (c ∷ cs) t h in
        let (no_dot, no_dot') =
          read_parts-Lacks (split b'.' (c ∷ cs)) t h (split-All-Lacks b'.' (c ∷ cs)) in
        (joined, hashed, named, kept, no_dot, no_dot')),
    IsToken-read (c ∷ cs) t,
  )
