-- ===== src/Consts/Blr.antt =====
-- rsfbclient-rust/src/consts.rs, `mod blr`: the codes of the binary language representation.
use rsfbclient.Base.{ℕ}

abbrev pub blr_version5 : ℕ
blr_version5 = 5

abbrev pub blr_begin : ℕ
blr_begin = 2

abbrev pub blr_message : ℕ
blr_message = 4

abbrev pub blr_end : ℕ
blr_end = 255

abbrev pub blr_eoc : ℕ
blr_eoc = 76

abbrev pub blr_text : ℕ
blr_text = 14

abbrev pub blr_short : ℕ
blr_short = 7

abbrev pub blr_quad : ℕ
blr_quad = 9

abbrev pub blr_double : ℕ
blr_double = 27

abbrev pub blr_timestamp : ℕ
blr_timestamp = 35

abbrev pub blr_varying : ℕ
blr_varying = 37

abbrev pub blr_int64 : ℕ
blr_int64 = 16

abbrev pub blr_bool : ℕ
blr_bool = 23
