-- ===== src/Sys/Initialize/Ready.antt =====
-- A context that was initialised is ready for a command.
use tpm2_tss_verified.Common.{
  ℕ, ◌+◌, ◌*◌, ◌≤◌, ◌<◌, ◌^◌, ◌≡◌, refl, true, false, some, none, Option, List, ◌++◌, length, drop,
  length-drop, le→ltb, arith,
}
use tpm2_tss_verified.Rc.{rc_success}
use tpm2_tss_verified.Memory.{Bytes}
use tpm2_tss_verified.Sys.{cmd_stage_initialize, SysContext, init_sys_context_fields}
use tpm2_tss_verified.Sys.Handles.{get_num_command_handles}
use tpm2_tss_verified.Sys.Frame.{IsFramed}
use tpm2_tss_verified.Sys.Command.{Arg, Allowed, prepare}
use tpm2_tss_verified.Sys.Command.Framed.{AllPut, all_encoded, plain_header, prepare-IsFramed}
use tpm2_tss_verified.Sys.Initialize.{
  max_command_size, get_context_size, init_sys_context_ptrs, TctiContext, AbiVersion, abi_mismatch,
  initialize,
}

-- The version that Tss2_Sys_Initialize accepts, or none.
abbrev pub Accepted : Option AbiVersion → Type 0
Accepted none = Unit
Accepted (some v) = v ≡ record { creator = 1; family = 2; level = 1; version = 108 }

-- The size leaves room for a header and for commands of the size that was asked for.
size_leaves_room :
    (blob_size max : ℕ)
    → blob_size + max < 2 ^ 32
    → blob_size + max_command_size < 2 ^ 32
    → (blob_size + 10 ≤ get_context_size blob_size max)
      × (blob_size + max ≤ get_context_size blob_size max)
      × (get_context_size blob_size max < 2 ^ 32)
unfolding get_context_size
size_leaves_room blob_size max small standard = (ground arith, ground arith, ground arith)

Accepted-abi_mismatch : (abi : Option AbiVersion) → Accepted abi → abi_mismatch abi ≡ false
unfolding abi_mismatch
Accepted-abi_mismatch none e = refl
Accepted-abi_mismatch (some v) e = rw e refl

-- Tss2_Sys_Initialize with a transport, a version it accepts and a block of the size that
-- Tss2_Sys_GetContextSize gives for commands of up to `max` bytes, and then X_Prepare with arguments
-- that fit their types and make a command of at most `max` bytes: both return with success, and the
-- context holds the command.
pub initialize-prepare :
    (blob_size max : ℕ) (ctx : SysContext) (memory : Bytes) (tcti : TctiContext)
    (abi : Option AbiVersion) (code : ℕ) (args : List Arg) (allowed : Allowed)
    (handles params : Bytes)
    → blob_size + max < 2 ^ 32
    → blob_size + max_command_size < 2 ^ 32
    → length memory ≡ get_context_size blob_size max
    → tcti.has_transmit ≡ true
    → tcti.has_receive ≡ true
    → Accepted abi
    → AllPut args
    → all_encoded args ≡ handles ++ params
    → length handles ≡ get_num_command_handles code * 4
    → 10 + length (handles ++ params) ≤ max
    → (ready framed : SysContext) × (initialize blob_size
          (some ctx)
          memory
          (get_context_size blob_size max)
          (some tcti)
          abi
        ≡ (rc_success, some ready))
      × (prepare code args allowed (some ready) ≡ some (rc_success, some framed))
      × IsFramed framed
          (plain_header code (handles ++ params))
          handles
          params
          (drop blob_size memory)
unfolding initialize init_sys_context_ptrs init_sys_context_fields
initialize-prepare blob_size max ctx memory tcti abi code args allowed handles params small standard
      whole transmit receive accepted valid bytes count fits =
    let size = get_context_size blob_size max in
    let (header, room, bound) = size_leaves_room blob_size max small standard in
    let l = length-drop blob_size memory in
    let ready : SysContext =
      record (init_sys_context_fields (init_sys_context_ptrs blob_size memory size ctx)) {
        previous_stage = cmd_stage_initialize;
      } in
    let (framed, done, is_framed, _, _, _, _, _, _) =
      prepare-IsFramed ready code args allowed handles params (λ e. cc) valid bytes count
        (omega arith) (omega arith) (omega arith) in
    (
      ready,
      framed,
      rw (
        le→ltb size blob_size (omega arith),
        transmit,
        receive,
        Accepted-abi_mismatch abi accepted,
      ),
      done,
      is_framed,
    )
