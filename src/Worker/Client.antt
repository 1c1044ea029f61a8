-- ===== src/Worker/Client.antt =====
-- The services outside of the process that the worker calls.
use all_debrid_proxy.Base.{ℕ, Bool, Option, List, Text}

-- An entry of `files` in the answer of `get_magnet_status`; an absent or empty name is empty.
pub record FileInfo : Type 0 where
  pub name : Text
  pub size : ℕ

-- Each call may answer differently each time, so calls that are repeated take the round's number.
pub record Client : Type 0 where
  pub upload_magnets : Text → Option (List Text)
  pub get_magnet_status : ℕ → Option Text → Option (List FileInfo)
  pub get_link_info : Text → Option FileInfo
  pub download_link : Option Text → ℕ → Option Text
  pub unlock_link : Option Text → Option Text
  pub add_uri : Text → Text → Bool
