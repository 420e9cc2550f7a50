-- ===== src/Srp.antt =====
-- rsfbclient-rust/src/srp.rs: the client side of the SRP exchange, and `srp_verifier` of
-- rsfbclient-rust/src/client.rs. A `BigUint` is a number; its conversions and its own `modpow`, and the
-- digests, are those of other crates. A digest takes the bytes that `chain_update` was given, in order.
pub mod Powers
pub mod Agreement
use rsfbclient.Base.{
  ltb, ◌==◌, if◌then◌else◌, length, replicate, ℕ, zero, suc, ◌+◌, ◌-◌, ◌*◌, ◌/◌, ◌%◌, Bool, [], ◌∷◌,
  ◌++◌, Bytes,
}
use rsfbclient.Error.{malicious_b_pub, srp_error, other, Result, ok, err}
use rsfbclient.Wire.Accept.{SrpAuthData}

pub record BigUint : Type 0 where
  pub from_bytes_be : Bytes → ℕ
  pub to_bytes_be : ℕ → Bytes
  pub modpow : ℕ → ℕ → ℕ → ℕ

abbrev pub Digest : Type 0
Digest = Bytes → Bytes

pub record SrpGroup : Type 0 where
  pub n : ℕ
  pub g : ℕ

pub record SrpClient : Type 0 where
  pub a : ℕ
  pub a_pub : ℕ

pub record SrpClientVerifier : Type 0 where
  pub proof : Bytes
  pub key : Bytes

-- The loop of `powm`. Each round halves the exponent. The source divides by the modulus, which is never 0
-- in the group of the crate.
unfoldable pub powm_loop : ℕ → ℕ → ℕ → ℕ → ℕ → ℕ
powm_loop zero modulus exp base result = result
powm_loop (suc fuel) modulus exp base result =
    let rest =
      powm_loop fuel modulus (exp / 2) ((base * base) % modulus)
        (if exp % 2 == 1 then (result * base) % modulus else result) in
    if ltb 0 exp then rest else result

unfoldable pub powm : ℕ → ℕ → ℕ → ℕ
powm base exp modulus = powm_loop (suc exp) modulus exp (base % modulus) 1

unfoldable pub group_powm : SrpGroup → ℕ → ℕ
group_powm params v = powm params.g v params.n

unfoldable pub srp_private_key : Digest → Bytes → Bytes → Bytes → Bytes
srp_private_key digest username password salt =
    digest (salt ++ digest (username ++ (b':' ∷ password)))

-- `v` of `calc_key`: the public value of the server less the part of the password.
unfoldable pub server_part : ℕ → ℕ → ℕ → ℕ
server_part n b_pub interm =
    if ltb interm b_pub then (b_pub - interm) % n else (n + b_pub - interm) % n

module _ (big : BigUint) where
  unfoldable pub srp_group : SrpGroup
  srp_group = record {
    n = big.from_bytes_be (
        230 ∷ 125 ∷ 46 ∷ 153 ∷ 75 ∷ 47 ∷ 144 ∷ 12 ∷ 63 ∷ 65 ∷ 240 ∷ 143 ∷ 91 ∷ 178 ∷ 98 ∷ 126 ∷ 208
        ∷ 212 ∷ 158 ∷ 225 ∷ 254 ∷ 118 ∷ 122 ∷ 82 ∷ 239 ∷ 205 ∷ 86 ∷ 92 ∷ 214 ∷ 231 ∷ 104 ∷ 129 ∷ 44
        ∷ 62 ∷ 30 ∷ 156 ∷ 232 ∷ 240 ∷ 168 ∷ 190 ∷ 166 ∷ 203 ∷ 19 ∷ 205 ∷ 41 ∷ 221 ∷ 235 ∷ 247 ∷ 169
        ∷ 109 ∷ 74 ∷ 147 ∷ 181 ∷ 93 ∷ 72 ∷ 141 ∷ 240 ∷ 153 ∷ 161 ∷ 92 ∷ 137 ∷ 220 ∷ 176 ∷ 100 ∷ 7
        ∷ 56 ∷ 235 ∷ 44 ∷ 189 ∷ 217 ∷ 168 ∷ 247 ∷ 186 ∷ 181 ∷ 97 ∷ 171 ∷ 27 ∷ 13 ∷ 193 ∷ 198 ∷ 205
        ∷ 171 ∷ 243 ∷ 3 ∷ 38 ∷ 74 ∷ 8 ∷ 209 ∷ 188 ∷ 169 ∷ 50 ∷ 209 ∷ 241 ∷ 238 ∷ 66 ∷ 139 ∷ 97 ∷ 157
        ∷ 151 ∷ 15 ∷ 52 ∷ 42 ∷ 186 ∷ 154 ∷ 101 ∷ 121 ∷ 59 ∷ 139 ∷ 47 ∷ 4 ∷ 26 ∷ 229 ∷ 54 ∷ 67 ∷ 80
        ∷ 193 ∷ 111 ∷ 115 ∷ 95 ∷ 86 ∷ 236 ∷ 188 ∷ 168 ∷ 123 ∷ 213 ∷ 123 ∷ 41 ∷ 231 ∷ []);
    g = big.from_bytes_be (2 ∷ []);
  }

  unfoldable pub new_client : Bytes → SrpGroup → SrpClient
  new_client seed params = record {
    a = big.from_bytes_be seed;
    a_pub = group_powm params (big.from_bytes_be seed);
  }

  -- The generator is padded to the length of the modulus, which it does not exceed in the group of the
  -- crate; the source panics where it does.
  unfoldable pub compute_k : SrpGroup → Digest → ℕ
  compute_k params digest =
      let n = big.to_bytes_be params.n in
      let g_bytes = big.to_bytes_be params.g in
      big.from_bytes_be (digest (n ++ (replicate (length n - length g_bytes) 0 ++ g_bytes)))

  module _ (sha1 : Digest) where
    -- `s` of `calc_key`.
    unfoldable pub premaster : SrpGroup → SrpClient → ℕ → ℕ → ℕ → ℕ
    premaster params self b_pub x u =
        let interm = (compute_k params sha1 * group_powm params x) % params.n in
        powm (server_part params.n b_pub interm) (self.a + (u * x) % params.n) params.n

    unfoldable pub calc_key : SrpGroup → SrpClient → ℕ → ℕ → ℕ → Bytes
    calc_key params self b_pub x u = sha1 (big.to_bytes_be (premaster params self b_pub x u))

    unfoldable pub calc_proof : Digest → SrpGroup → SrpClient → Bytes → Bytes → ℕ → Bytes → Bytes
    calc_proof digest params self user salt b_pub key =
        let hn = big.from_bytes_be (sha1 (big.to_bytes_be params.n)) in
        let hg = big.from_bytes_be (sha1 (big.to_bytes_be params.g)) in
        digest (
          big.to_bytes_be (big.modpow hn hg params.n)
          ++ (sha1 user
              ++ (salt ++ (big.to_bytes_be self.a_pub ++ (big.to_bytes_be b_pub ++ key)))))

    unfoldable pub process_reply :
        Digest → SrpGroup → SrpClient → Bytes → Bytes → Bytes → Bytes → Result SrpClientVerifier
    process_reply digest params self user salt private_key b_pub_bytes =
        let u = big.from_bytes_be (sha1 (big.to_bytes_be self.a_pub ++ b_pub_bytes)) in
        let b_pub = big.from_bytes_be b_pub_bytes in
        let key = calc_key params self b_pub (big.from_bytes_be private_key) u in
        if b_pub % params.n == 0
        then err (other malicious_b_pub)
        else ok (record { proof = calc_proof digest params self user salt b_pub key; key = key })

    abbrev with_srp_error : {A : Type 0} → Result A → Result A
    with_srp_error (ok a) = ok a
    with_srp_error (err _) = err (other srp_error)

    -- `srp_verifier`. The text of its error is the same for every error of `process_reply`.
    unfoldable pub srp_verifier :
        Digest → SrpGroup → SrpClient → Bytes → Bytes → SrpAuthData → Result SrpClientVerifier
    srp_verifier digest params srp user pass d = with_srp_error (
        process_reply digest params srp user d.salt (srp_private_key sha1 user pass d.salt)
          d.pub_key)
