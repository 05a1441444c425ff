-- ===== src/Sys/Commands/Laws.antt =====
-- Single commands: reading of a response, and one call from the command to its result.
use tpm2_tss_verified.Common.{ℕ, ◌≡◌, Option, some, length}
use tpm2_tss_verified.Mu.Tpm2b.{Tpm2b}
use tpm2_tss_verified.Sys.{SysContext}

-- What Load_Complete returns, with the handle and the name in their places.
abbrev pub Loaded : SysContext → Option (ℕ × Option SysContext × (Option ℕ × Option Tpm2b)) → Type 0
Loaded ctx r =
    (rc next handle : ℕ) × (name : Tpm2b) × (length name.buffer ≡ 68)
    × (r ≡ some (rc, some (record ctx { next_data = next }), (some handle, some name)))
