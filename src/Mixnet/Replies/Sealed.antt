-- ===== src/Mixnet/Replies/Sealed.antt =====
-- Who can read which reply, and what all of them look like.
use mathlib.Core.Option.{none-ne-some}
use gjallarhorn.Prelude.{
  ℕ, zero, suc, ◌+◌, ◌<◌, ◌≡◌, refl, sym, ap, ◌∙◌, true, List, [], ◌∷◌, Option, none, some,
  some_inj, ◌==◌, arith, length, get_elem?, get_elem?-some, Bool-cases, inl, inr,
}
use gjallarhorn.Prelude.Bytes.{Bytes, zeros, length-zeros}
use gjallarhorn.Mixnet.Replies.{
  Box, IsBox, seal_reply, seal_sized, seal_found, encrypt_from, encrypt_replies, backward_nonce,
}

abbrev pub AllSized : ℕ → List Bytes → Type 0
AllSized n [] = Unit {0}
AllSized n (r ∷ rs) = (length r ≡ n) × AllSized n rs

module _ (x : Box) (law : IsBox x) (nonce : Bytes) (size : ℕ) (fresh : ℕ → Bytes)
    (replies keys : List Bytes) where
  seal_sized-length : (f msg key : Bytes) → length (seal_sized x nonce size f msg key) ≡ size + 16
  seal_sized-length f msg key = elim (Bool-cases (length msg == size)) [
    | inl fits ↦ rw fits (ground (arith, law.seal_length msg nonce key))
    | inr other ↦ rw other (omega (arith, law.seal_length (zeros size) nonce f, length-zeros size))
  ]

  seal_reply-length :
      (i : ℕ) (ix : Option ℕ) {r : Bytes}
      → seal_reply x nonce size fresh replies keys i ix ≡ some r
      → length r ≡ size + 16
  unfolding seal_reply
  seal_reply-length i none {r} h = omega (
    arith,
    ap length (some_inj h),
    law.seal_length (zeros size) nonce (fresh i),
    length-zeros size,
  )
  seal_reply-length i (some v) {r} h = found (get_elem? replies v) (get_elem? keys i) h
    where
      found :
          (m k : Option Bytes)
          → seal_found x nonce size (fresh i) m k ≡ some r
          → length r ≡ size + 16
      found none k h = absurd (none-ne-some r h)
      found (some m) none h = absurd (none-ne-some r h)
      found (some m) (some k) h =
          omega (arith, ap length (some_inj h), seal_sized-length (fresh i) m k)

  reply_total :
      (i : ℕ) (ix : Option ℕ)
      → ((v : ℕ) → ix ≡ some v → (v < length replies) × (i < length keys))
      → (r : Bytes) × (seal_reply x nonce size fresh replies keys i ix ≡ some r)
  unfolding seal_reply
  reply_total i none fit = (x.seal_after (zeros size) nonce (fresh i), refl)
  reply_total i (some v) fit =
      let (a, b) = fit v refl in
      let (m, em) = get_elem?-some replies v a in
      let (k, ek) = get_elem?-some keys i b in (seal_sized x nonce size (fresh i) m k, rw (em, ek))

  record Encrypted (i : ℕ) (index : List (Option ℕ)) (rs : List Bytes) : Type 0 where
    pub result : encrypt_from x nonce size fresh replies keys i index ≡ some rs
    pub sized : AllSized (size + 16) rs
    pub count : length rs ≡ length index
    pub at :
        (k v : ℕ) (m key : Bytes)
        → get_elem? index k ≡ some (some v)
        → get_elem? replies v ≡ some m
        → get_elem? keys (i + k) ≡ some key
        → get_elem? rs k ≡ some (seal_sized x nonce size (fresh (i + k)) m key)

  at_cons :
      (i : ℕ) (ix : Option ℕ) (index : List (Option ℕ)) (r : Bytes) (rs : List Bytes)
      → seal_reply x nonce size fresh replies keys i ix ≡ some r
      → Encrypted (i + 1) index rs
      → (k v : ℕ) (m key : Bytes) → get_elem? (ix ∷ index) k ≡ some (some v)
      → get_elem? replies v ≡ some m
      → get_elem? keys (i + k) ≡ some key
      → get_elem? (r ∷ rs) k ≡ some (seal_sized x nonce size (fresh (i + k)) m key)
  unfolding seal_reply
  at_cons i ix index r rs er e zero v m key hi hm hk =
      let here : i + 0 ≡ i = omega arith in
      rw here (sym (rw (some_inj hi, hm, rw here at hk) at er))
  at_cons i ix index r rs er e (suc k) v m key hi hm hk =
      let there : i + suc k ≡ i + 1 + k = omega arith in
      rw there (e.at k v m key hi hm (rw there at hk))

  encrypt_from_total :
      (i : ℕ) (index : List (Option ℕ))
      → ((k v : ℕ)
          → get_elem? index k ≡ some (some v)
          → (v < length replies) × (i + k < length keys))
      → (rs : List Bytes) × Encrypted i index rs
  unfolding encrypt_from
  encrypt_from_total i [] fit = (
    [],
    record {
      result = refl;
      sized = tt;
      count = refl;
      at = λ k v m key h. absurd (none-ne-some (some v) h);
    },
  )
  encrypt_from_total i (ix ∷ index) fit =
      let (r, er) =
        reply_total i ix (λ v e. let (a, b) = fit 0 v (ap some e) in (a, omega arith)) in
      let (rs, e) =
        encrypt_from_total (i + 1) index
          (λ k v h. let (a, b) = fit (suc k) v h in (a, omega arith)) in
      (
        r ∷ rs,
        record {
          result = rw (encrypt_from, er, e.result);
          sized = (seal_reply-length i ix er, e.sized);
          count = ap suc e.count;
          at = at_cons i ix index r rs er e;
        },
      )

module _ (x : Box) (law : IsBox x) (round size : ℕ) (fresh : ℕ → Bytes)
    (replies keys : List Bytes) where
  -- With a reply and a shared key for every index, `encryptReplies` does not panic, and there is one
  -- reply for each onion; all replies have one length, whatever was decrypted, dropped or answered.
  pub encrypt_replies-AllSized :
      (index : List (Option ℕ))
      → ((k v : ℕ) → get_elem? index k ≡ some (some v) → (v < length replies) × (k < length keys))
      → (rs : List Bytes) × (encrypt_replies x round size fresh replies keys index ≡ some rs)
        × (length rs ≡ length index)
        × AllSized (size + 16) rs
  unfolding encrypt_replies
  encrypt_replies-AllSized index fit =
      let (rs, e) =
        encrypt_from_total x law (backward_nonce round) size fresh replies keys 0 index
          (λ k v h. let (a, b) = fit k v h in (a, omega arith)) in
      (rs, e.result, e.count, e.sized)

  -- An onion with an index gets its own reply, if that has the size of a reply, under the key that
  -- its sender shares with this server; the sender opens it with that key and the round's nonce.
  pub encrypt_replies-opens :
      (index : List (Option ℕ)) (rs : List Bytes) (k v : ℕ) (m key : Bytes)
      → ((k v : ℕ) → get_elem? index k ≡ some (some v) → (v < length replies) × (k < length keys))
      → encrypt_replies x round size fresh replies keys index ≡ some rs
      → get_elem? index k ≡ some (some v)
      → get_elem? replies v ≡ some m
      → get_elem? keys k ≡ some key
      → length m ≡ size
      → (r : Bytes) × (get_elem? rs k ≡ some r)
        × (x.open_after r (backward_nonce round) key ≡ some m)
  unfolding encrypt_replies
  encrypt_replies-opens index rs k v m key fit er hi hm hk hs =
      let (rs', e) =
        encrypt_from_total x law (backward_nonce round) size fresh replies keys 0 index
          (λ k v h. let (a, b) = fit k v h in (a, omega arith)) in
      let same : rs' ≡ rs = some_inj (sym e.result ∙ er) in
      let here : 0 + k ≡ k = omega arith in
      let fits : (length m == size) ≡ true = ground arith in
      let got = e.at k v m key hi hm (rw here hk) in
      (
        x.seal_after m (backward_nonce round) key,
        rw (fits, same) at got,
        law.open_seal m (backward_nonce round) key,
      )
