-- ===== src/Sys/Command.antt =====
-- The frame that the functions for the single commands share, in src/tss2-sys/api: of a function
-- Tss2_Sys_X_Prepare the arguments that it marshals at `&ctx->nextData`, of Tss2_Sys_X_Complete the
-- results that it unmarshals there, and of Tss2_Sys_X the three calls; and CommonOneCall of
-- src/tss2-sys/sysapi_util.c.
pub mod Framed
pub mod Safe
pub mod Completed
pub mod Authorised
pub mod Exchange
use tpm2_tss_verified.Common.{
  ℕ, Bool, true, false, not, ◌||◌, ◌&&◌, Option, none, some, List, [], ◌∷◌, ◌==◌, if◌then◌else◌,
  ◌>>=◌,
}
use tpm2_tss_verified.Rc.{rc_success, sys_bad_reference, mu_bad_reference, tpm2_st_sessions}
use tpm2_tss_verified.Endian.{w2}
use tpm2_tss_verified.Mu.Codec.{local_of}
use tpm2_tss_verified.Mu.Base.{base_marshal}
use tpm2_tss_verified.Mu.Format.{Format}
use tpm2_tss_verified.Sys.{
  SysContext, common_prepare_prologue, common_prepare_epilogue, common_complete,
}
use tpm2_tss_verified.Sys.Execute.{Transport, execute}
use tpm2_tss_verified.Sys.Params.{word_at}
use tpm2_tss_verified.Sys.Auths.{AuthCommand, AuthResponse, AuthList, set_cmd_auths, get_rsp_auths}

-- An argument that is marshalled: a value, or the object of a pointer; a sized buffer that may be
-- NULL and is, for which a size of 0 is marshalled, with whether `decryptNull` is set; or
-- a NULL pointer that the marshalling function refuses.
pub data Arg : Type 1 where
  arg : {A V : Type 0} → Format A V → A → Arg
  absent : Bool → Arg
  refused : Arg

-- if (!a) { ... Tss2_MU_UINT16_Marshal(0, ...) } else { ..._Marshal(a, ...) }
abbrev pub optional : {A V : Type 0} → Bool → Format A V → Option A → Arg
optional first f none = absent first
optional first f (some a) = arg f a

-- ..._Marshal(a, ...), for a pointer that is not tested.
abbrev pub pointer : {A V : Type 0} → Format A V → Option A → Arg
pointer f none = refused
pointer f (some a) = arg f a

unfoldable pub put : Arg → SysContext → Option (ℕ × SysContext)
put (arg f a) ctx = do
  m ← f.codec.marshal a (some ctx.cmd_buffer) ctx.max_cmd_size (some ctx.next_data)
  buf ← m.buffer
  some (m.rc, record ctx { cmd_buffer = buf; next_data = local_of m.offset })
put (absent first) ctx = do
  m ← base_marshal w2 0 (some ctx.cmd_buffer) ctx.max_cmd_size (some ctx.next_data)
  buf ← m.buffer
  some (
    m.rc,
    record ctx {
      cmd_buffer = buf;
      next_data = local_of m.offset;
      decrypt_null = first || ctx.decrypt_null;
    },
  )
put refused ctx = some (mu_bad_reference, ctx)

-- One argument behind the other; an error returns.
unfoldable pub put_all : List Arg → SysContext → Option (ℕ × SysContext)
put_all [] ctx = some (rc_success, ctx)
put_all (a ∷ args) ctx = do
  (rval, ctx') ← put a ctx
  if not (rval == rc_success) then some (rval, ctx') else put_all args ctx'

-- ctx->decryptAllowed, ctx->encryptAllowed and ctx->authAllowed
pub record Allowed : Type 0 where
  pub decrypt : Bool
  pub encrypt : Bool
  pub auth : Bool

abbrev pub allowing : Bool → Bool → Bool → Allowed
allowing decrypt encrypt auth = record { decrypt = decrypt; encrypt = encrypt; auth = auth }

-- What is left of Tss2_Sys_X_Prepare behind its arguments: the context, then the return code and
-- the context; and of Tss2_Sys_X_Complete, with what the pointers to the results point at.
abbrev pub Preparing : Type 0
Preparing = Option SysContext → Option (ℕ × Option SysContext)

abbrev pub Completing : Type 0 → Type 0
Completing A = Option SysContext → A → Option (ℕ × Option SysContext × A)

-- Tss2_Sys_X_Prepare, for the code of the command, its arguments and what it allows.
unfoldable pub prepare : ℕ → List Arg → Allowed → Option SysContext → Option (ℕ × Option SysContext)
prepare code args allowed none = some (sys_bad_reference, none)
prepare code args allowed (some ctx) = do
  (rval, begun) ← common_prepare_prologue ctx code
  if not (rval == rc_success) then some (rval, some begun) else do
    (rval', written) ← put_all args begun
    if not (rval' == rc_success) then some (rval', some written) else do
      (rval'', framed) ← common_prepare_epilogue (record written {
        decrypt_allowed = allowed.decrypt;
        encrypt_allowed = allowed.encrypt;
        auth_allowed = allowed.auth;
      })
      some (rval'', some framed)

-- if (!a) return TSS2_SYS_RC_BAD_REFERENCE;
abbrev pub required :
    {A : Type 0}
    → Option A
    → Option SysContext
    → (A → Option (ℕ × Option SysContext))
    → Option (ℕ × Option SysContext)
required none ctx rest = some (sys_bad_reference, ctx)
required (some a) ctx rest = rest a

-- A part of Tss2_Sys_X_Complete: the return code, the context, and what the pointers to the results
-- point at afterwards.
abbrev pub Getting : Type 0 → Type 0
Getting A = SysContext → A → Option (ℕ × SysContext × A)

module _ {A V : Type 0} (f : Format A V) where
  unfoldable pub get : Getting (Option A)
  get ctx dest = do
    u ← f.codec.unmarshal (some ctx.cmd_buffer) ctx.max_cmd_size (some ctx.next_data) dest
    some (u.rc, record ctx { next_data = local_of u.offset }, u.dest)

-- No result is left to get.
unfoldable pub got_all : Getting (Unit {0})
got_all ctx dest = some (rc_success, ctx, tt)

-- An error in the first part returns.
infixr 60 ◌followed_by◌
unfoldable pub ◌followed_by◌ : {A B : Type 0} → Getting A → Getting B → Getting (A × B)
(first followed_by second) ctx (a, b) = do
  (rval, ctx', a') ← first ctx a
  if not (rval == rc_success)
      then some (rval, ctx', (a', b))
      else do (rval', ctx'', b') ← second ctx' b; some (rval', ctx'', (a', b'))

-- CommonComplete, and what follows it.
unfoldable pub behind_common : {A : Type 0} → Getting A → Getting A
behind_common rest ctx dest = do
  (rval, ctx') ← common_complete ctx
  if not (rval == rc_success) then some (rval, ctx', dest) else rest ctx' dest

-- Tss2_Sys_X_Complete, for its parts.
unfoldable pub complete : {A : Type 0} → Getting A → Completing A
complete parts none dest = some (sys_bad_reference, none, dest)
complete parts (some ctx) dest = do
  (rval, ctx', dest') ← parts ctx dest
  some (rval, some ctx', dest')

-- if (cmdAuthsArray) rval = Tss2_Sys_SetCmdAuths(...)
unfoldable pub give_auths :
    Option (AuthList AuthCommand) → Option SysContext → Option (ℕ × Option SysContext)
give_auths none ctx = some (rc_success, ctx)
give_auths (some auths) ctx = set_cmd_auths ctx (some auths)

-- The end of CommonOneCall, behind Tss2_Sys_Execute.
unfoldable pub take_auths :
    Option (AuthList AuthResponse) → SysContext → Option (ℕ × Option (AuthList AuthResponse))
take_auths rsp_auths ctx =
    if not (ctx.rsp_header.response_code == rc_success)
    then some (ctx.rsp_header.response_code, rsp_auths)
    else do
      tag ← word_at 0 ctx
      if not (tag == tpm2_st_sessions) then some (rc_success, rsp_auths) else elim rsp_auths [
        | none ↦ some (rc_success, none)
        | some auths ↦ get_rsp_auths (some ctx) (some auths)
      ]

-- The return code, the context, the authorisations of the response, the results, and the transport.
pub record Called (A S : Type 0) : Type 0 where
  pub rc : ℕ
  pub ctx : Option SysContext
  pub rsp_auths : Option (AuthList AuthResponse)
  pub results : A
  pub after : S

-- What is left of Tss2_Sys_X behind its arguments: the pointers to the results and to the
-- authorisations of the response.
abbrev pub Finishing : Transport → Type 0 → Type 0
Finishing t A = A → Option (AuthList AuthResponse) → t.State → Option (Called A t.State)

module _ (t : Transport) where
  unfoldable pub common_one_call :
      Option SysContext
      → Option (AuthList AuthCommand)
      → Option (AuthList AuthResponse)
      → t.State
      → Option (Called (Unit {0}) t.State)
  common_one_call ctx cmd_auths rsp_auths s = do
    (rval, ctx') ← give_auths cmd_auths ctx
    if not (rval == rc_success)
        then some (record { rc = rval; ctx = ctx'; rsp_auths = rsp_auths; results = tt; after = s })
        else do
          (rval', executed, s') ← execute t ctx' s
          if not (rval' == rc_success)
              then some (record {
                rc = rval';
                ctx = executed;
                rsp_auths = rsp_auths;
                results = tt;
                after = s';
              })
              else do
                here ← executed
                (rval'', rsp_auths') ← take_auths rsp_auths here
                some (record {
                  rc = rval'';
                  ctx = some here;
                  rsp_auths = rsp_auths';
                  results = tt;
                  after = s';
                })

  -- Tss2_Sys_X, for the functions that prepare and complete it.
  unfoldable pub one_call :
      {A : Type 0}
      → Preparing
      → Completing A
      → Option SysContext
      → Option (AuthList AuthCommand)
      → Finishing t A
  one_call prepared completed ctx cmd_auths results rsp_auths s = do
    (rval, ctx') ← prepared ctx
    if not (rval == rc_success)
        then some
            (record { rc = rval; ctx = ctx'; rsp_auths = rsp_auths; results = results; after = s })
        else do
          called ← common_one_call ctx' cmd_auths rsp_auths s
          if not (called.rc == rc_success)
              then some (record {
                rc = called.rc;
                ctx = called.ctx;
                rsp_auths = called.rsp_auths;
                results = results;
                after = called.after;
              })
              else do
                (rval', ctx'', results') ← completed called.ctx results
                some (record {
                  rc = rval';
                  ctx = ctx'';
                  rsp_auths = called.rsp_auths;
                  results = results';
                  after = called.after;
                })
