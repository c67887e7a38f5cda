-- ===== src/Shared.antt =====
-- The memory that srsUE and the host of the authentication enclave share: SharedData of
-- vsim/fpga-auth/host/host-fpga.cpp, which srsue/usim.cc maps too.
use disguise_pets.Base.{ℕ, Bool, List}

pub data CommandType : Type 0 where
  cmd_none cmd_authenticate cmd_switch cmd_exit : CommandType

pub record AuthData : Type 0 where
  pub rand_bytes : List ℕ
  pub opc_bytes : List ℕ
  pub autenb_bytes : List ℕ

pub record SharedData : Type 0 where
  pub command_ready : Bool
  pub response_ready : Bool
  pub auth_response_ready : Bool
  pub command_type : CommandType
  pub auth_data : AuthData
  pub res : List ℕ
  pub ak_xor_sqn : List ℕ
  pub ck : List ℕ
  pub ik : List ℕ
  pub response : List ℕ
