-- ===== src/Session/Child.antt =====
-- internal/session: the Child SA of ikeauth.go, what rekey.go installs in the data plane, and the settings of
-- session.go that the driver reads.
use go_ipsec.Common.{ℕ, Bool, List}
use go_ipsec.Ikesa.{ChildKeys}

pub record ChildSa : Type 0 where
  pub initiator_spi : ℕ
  pub responder_spi : ℕ
  pub suite : ℕ
  pub keys : ChildKeys

pub record ChildSaUpdate : Type 0 where
  pub new_in_spi : ℕ
  pub new_out_spi : ℕ
  pub old_in_spi : ℕ
  pub suite : ℕ
  pub out_encr : List ℕ
  pub out_integ : List ℕ
  pub in_encr : List ℕ
  pub in_integ : List ℕ

-- A duration that is not above 0 is 0.
pub record Settings : Type 0 where
  pub esp_suite_ids : List ℕ
  pub ike_suite_ids : List ℕ
  pub request_ipv6 : Bool
  pub dpd_timeout : ℕ
  pub rekey_lifetime : ℕ
  pub ike_rekey_lifetime_setting : ℕ
  pub rekey_max_packets_setting : ℕ
