-- ===== src/Srp/Agreement.antt =====
-- rsfbclient-rust/src/srp.rs: the client and the server come to the same key.
use native.Mathlib.Nat.{mod-mod, mod-lt, mod-eq_of_lt, mod-add-mod, add-mod-mod, mod-eq-sub-mod}
use native.Mathlib.Decide.{dec_lt}
use rsfbclient.Base.{
  ltb, ltb→lt, ◌==◌, Bool-cases, ℕ, ◌+◌, ◌-◌, ◌*◌, ◌%◌, ◌^◌, ◌≤◌, ◌<◌, ◌≡◌, ◌⊎◌, refl, sym, ap, ◌∙◌,
  false, inl, inr, ◌++◌, Bytes, arith,
}
use rsfbclient.Error.{ok}
use rsfbclient.Srp.{
  BigUint, Digest, SrpGroup, group_powm, new_client, compute_k, server_part, premaster, calc_key,
  calc_proof, process_reply,
}
use rsfbclient.Srp.Powers.{mod-mul-mod, mul-mod-mod, mod-pow-mod, pow-add, pow-mul, powm-pow}

sum_small :
    (n q g : ℕ)
    → q < n
    → g < n
    → (((q + g) % n ≡ q + g) × (q + g < n)) ⊎ (((q + g) % n + n ≡ q + g) × (n ≤ q + g))
sum_small n q g hq hg = elim (dec_lt (q + g) n) [
  | yes below ↦ inl (mod-eq_of_lt below, below)
  | no above ↦ inr (
    omega (
      arith,
      mod-eq-sub-mod {n = q + g} {m = n} (omega arith),
      mod-eq_of_lt {n = q + g - n} {m = n} (omega arith),
    ),
    omega arith,
  )
]

taken_off :
    (n q g p : ℕ)
    → q < n
    → g < n
    → ((p ≡ q + g) × (q + g < n)) ⊎ ((p + n ≡ q + g) × (n ≤ q + g))
    → server_part n p q ≡ g
unfolding server_part
taken_off n q g p hq hg (inl (e, h)) = elim (Bool-cases (ltb q p)) [
  | inl more ↦ rw more (ap (λ t. t % n) (omega arith) ∙ mod-eq_of_lt hg)
  | inr same ↦ rw same (
      mod-eq-sub-mod {n = n + p - q} {m = n} (omega arith)
      ∙ ap (λ t. t % n) (ground arith)
      ∙ mod-eq_of_lt hg)
]
taken_off n q g p hq hg (inr (e, h)) = elim (Bool-cases (ltb q p)) [
  | inl more ↦ absurd (omega (arith, ltb→lt q p more))
  | inr less ↦ rw less (ap (λ t. t % n) (omega arith) ∙ mod-eq_of_lt hg)
]

-- What is taken off is what was put on, before the sum was reduced.
server_part-add : (n kv gb : ℕ) → 0 < n → server_part n ((kv + gb) % n) (kv % n) ≡ gb % n
server_part-add n kv gb h =
    taken_off n (kv % n) (gb % n) ((kv + gb) % n) (mod-lt kv h) (mod-lt gb h) (
      rw (← mod-add-mod kv n gb, ← add-mod-mod (kv % n) gb n)
        (sum_small n (kv % n) (gb % n) (mod-lt kv h) (mod-lt gb h)))

-- The server, which keeps the verifier `g ^ x` of the password, answers `k v + g ^ b` and raises what
-- it was sent times `v ^ u` to `b`.
abbrev pub verifier : SrpGroup → ℕ → ℕ
verifier params x = params.g ^ x % params.n

abbrev pub server_pub : SrpGroup → ℕ → ℕ → ℕ → ℕ
server_pub params k x b = (k * verifier params x + params.g ^ b % params.n) % params.n

abbrev pub server_secret : SrpGroup → ℕ → ℕ → ℕ → ℕ → ℕ
server_secret params a_pub x u b =
    ((a_pub * (verifier params x ^ u % params.n)) % params.n) ^ b % params.n

client_base :
    (params : SrpGroup) (k x b : ℕ)
    → 1 < params.n
    → server_part params.n (server_pub params k x b) ((k * group_powm params x) % params.n)
      ≡ params.g ^ b % params.n
unfolding group_powm
client_base params k x b h = rw (powm-pow params.g x params.n h) (
    server_part-add params.n (k * verifier params x) (params.g ^ b % params.n) (omega arith)
    ∙ mod-mod (params.g ^ b) params.n)

-- Both come to the power of the generator by the product of their exponents.
server_secret-pow :
    (params : SrpGroup) (a x u b : ℕ)
    → server_secret params (params.g ^ a % params.n) x u b ≡ params.g ^ (b * (a + u * x)) % params.n
server_secret-pow params a x u b =
    ap (λ t. t ^ b % params.n)
      (mod-mul-mod (params.g ^ a) (verifier params x ^ u % params.n) params.n
        ∙ ap (λ t. (params.g ^ a * t) % params.n) (mod-pow-mod (params.g ^ x) u params.n)
        ∙ mul-mod-mod (params.g ^ a) ((params.g ^ x) ^ u) params.n
        ∙ ap (λ t. t % params.n)
            (ap (λ t. params.g ^ a * t) (sym (pow-mul params.g x u))
              ∙ sym (pow-add params.g a (x * u))))
    ∙ mod-pow-mod (params.g ^ (a + x * u)) b params.n
    ∙ ap (λ t. t % params.n)
        (sym (pow-mul params.g (a + x * u) b) ∙ ap (λ t. params.g ^ t) (omega arith))

module _ (big : BigUint) (sha1 : Digest) (params : SrpGroup) where
  premaster-pow :
      (seed : Bytes) (x u b : ℕ)
      → 1 < params.n
      → u * x < params.n
      → premaster big sha1 params
          (new_client big seed params)
          (server_pub params (compute_k big params sha1) x b)
          x
          u
        ≡ params.g ^ (b * (big.from_bytes_be seed + u * x)) % params.n
  unfolding premaster new_client
  premaster-pow seed x u b h small =
      rw (client_base params (compute_k big params sha1) x b h, mod-eq_of_lt small)
        (powm-pow (params.g ^ b % params.n) (big.from_bytes_be seed + u * x) params.n h
          ∙ mod-pow-mod (params.g ^ b) (big.from_bytes_be seed + u * x) params.n
          ∙ ap (λ t. t % params.n) (sym (pow-mul params.g b (big.from_bytes_be seed + u * x))))

  premaster-secret :
      (seed : Bytes) (x u b : ℕ)
      → 1 < params.n
      → u * x < params.n
      → premaster big sha1 params
          (new_client big seed params)
          (server_pub params (compute_k big params sha1) x b)
          x
          u
        ≡ server_secret params (new_client big seed params).a_pub x u b
  unfolding new_client group_powm
  premaster-secret seed x u b h small =
      premaster-pow seed x u b h small
      ∙ sym (server_secret-pow params (big.from_bytes_be seed) x u b)
      ∙ ap (λ t. server_secret params t x u b)
          (sym (powm-pow params.g (big.from_bytes_be seed) params.n h))

  -- The client accepts the public value that a server makes of the verifier `g ^ x` of the password and
  -- of its own secret, and comes to the key that the server comes to, the digest of the power that the
  -- server raises the public value of the client and the verifier to. `x` is the private key that the
  -- client hashes of the password, and `u` is hashed of both public values. The modulus is above 1 and
  -- above the product of `u` and `x`, by which the client reduces it, and the public value of the
  -- server is no multiple of the modulus.
  pub process_reply-agrees :
      (digest : Digest) (seed user salt private_key b_pub : Bytes) (u x b : ℕ)
      → u ≡ big.from_bytes_be (sha1 (big.to_bytes_be (new_client big seed params).a_pub ++ b_pub))
      → x ≡ big.from_bytes_be private_key
      → big.from_bytes_be b_pub ≡ server_pub params (compute_k big params sha1) x b
      → 1 < params.n
      → u * x < params.n
      → (big.from_bytes_be b_pub % params.n == 0) ≡ false
      → (proof : Bytes) × (process_reply big sha1 digest params
            (new_client big seed params)
            user
            salt
            private_key
            b_pub
          ≡ ok (record {
            proof = proof;
            key =
                sha1
                  (big.to_bytes_be (server_secret params (new_client big seed params).a_pub x u b));
          }))
  unfolding process_reply calc_key
  process_reply-agrees digest seed user salt private_key b_pub u x b hu hx hb h small good = (
    calc_proof big sha1 digest params (new_client big seed params) user salt
        (big.from_bytes_be b_pub)
        (calc_key big sha1 params (new_client big seed params) (big.from_bytes_be b_pub)
          (big.from_bytes_be private_key)
          (big.from_bytes_be (sha1 (big.to_bytes_be (new_client big seed params).a_pub ++ b_pub)))),
    rw good (rw (← hu, ← hx, hb, premaster-secret seed x u b h small) refl),
  )
