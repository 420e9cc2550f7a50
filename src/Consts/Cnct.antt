-- ===== src/Consts/Cnct.antt =====
-- rsfbclient-rust/src/consts.rs, `Cnct`: the tags of the user identification data.
use rsfbclient.Base.{ℕ}

pub data Cnct : Type 0 where
  user passwd host group user_verification specific_data plugin_name login plugin_list
        client_crypt :
      Cnct

abbrev pub cnct_code : Cnct → ℕ
cnct_code user = 1
cnct_code passwd = 2
cnct_code host = 4
cnct_code group = 5
cnct_code user_verification = 6
cnct_code specific_data = 7
cnct_code plugin_name = 8
cnct_code login = 9
cnct_code plugin_list = 10
cnct_code client_crypt = 11
