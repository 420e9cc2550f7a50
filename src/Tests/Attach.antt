-- ===== src/Tests/Attach.antt =====
-- Witnesses for the requests and answers of rsfbclient-rust/src/wire.rs.
use rsfbclient.Base.{◌≡◌, refl, inl, some, List, [], ◌∷◌, ◌++◌, arith, Bytes}
use rsfbclient.Error.{missing_bytes, other}
use rsfbclient.Reader.{done, failed}
use rsfbclient.Consts.{v13, version_code}
use rsfbclient.Consts.Op.{WireOp, op}
use rsfbclient.Util.{put_u32, put_wire_bytes}
use rsfbclient.Wire.Attach.{DpbData, dpb}
use rsfbclient.Wire.Attach.Layout.{Versioned, read_dpb, read_dpb-dpb}
use rsfbclient.Wire.Accept.{parse_accept}
use rsfbclient.Wire.Accept.Stability.{CutOff, in_salt, parse_accept_truncated}

abbrev two_params : List DpbData
two_params =
    record { tag = 28; data_bytes = b'm' ∷ b'e' ∷ [] }
    ∷ record { tag = 63; data_bytes = 3 ∷ [] }
    ∷ []

read_dpb-dpb_example :
    (read_dpb 2 (dpb two_params ++ (9 ∷ [])) ≡ done two_params (9 ∷ []))
    × Versioned two_params (dpb two_params)
read_dpb-dpb_example =
    read_dpb-dpb two_params (9 ∷ []) ((omega arith, omega arith), ((omega arith, omega arith), tt))

-- A salt of two bytes is announced, and one is there.
abbrev short_block : Bytes
short_block = 2 ∷ 0 ∷ 7 ∷ []

short_block-CutOff : CutOff short_block
short_block-CutOff = in_salt 2 (7 ∷ []) (omega arith) (omega arith)

parse_accept_truncated_example :
    (s : Bytes) × (parse_accept
        (λ digits. some digits)
        (λ code. [])
        (put_u32 (op WireOp.accept_data)
          ++ (put_u32 (version_code v13)
              ++ (put_u32 1 ++ (put_u32 3 ++ (put_wire_bytes short_block ++ (9 ∷ []))))))
      ≡ failed (other missing_bytes) s)
parse_accept_truncated_example =
    parse_accept_truncated (λ digits. some digits) (λ code. []) (op WireOp.accept_data)
      (version_code v13) 1 3 short_block (9 ∷ []) (inl refl) v13 refl (omega arith) (omega arith)
      (omega arith) short_block-CutOff
