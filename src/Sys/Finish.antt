-- ===== src/Sys/Finish.antt =====
-- What ExecuteFinish makes of a response.
use tpm2_tss_verified.Common.{
  ℕ, ◌≤◌, ◌<◌, ◌≡◌, ◌≢◌, refl, ◌⊎◌, inl, inr, Bool-cases, true, false, some, length, All, arith,
  ltb, ◌==◌, ◌||◌, ◌&&◌, not, if◌then◌else◌,
}
use tpm2_tss_verified.Rc.{
  rc_success, sys_bad_sequence, sys_general_failure, sys_malformed_response,
  sys_insufficient_response, tpm2_st_no_sessions, tpm2_st_sessions, tpm2_st_rsp_command,
  tpm2_rc_canceled,
}
use tpm2_tss_verified.Memory.{size_mod, slice, length-slice, read_within}
use tpm2_tss_verified.Endian.{w2, w4, be_to_host-of_memory, IsByte, slice-IsByte}
use tpm2_tss_verified.Mu.Base.Laws.{base_unmarshal_fits}
use tpm2_tss_verified.Tcti.{Header}
use tpm2_tss_verified.Tcti.Wire.{parsed}
use tpm2_tss_verified.Sys.{
  Stage, get_command_size, header_field, cmd_stage_initialize, cmd_stage_prepare,
  cmd_stage_send_command, cmd_stage_receive_response, SysContext,
}
use tpm2_tss_verified.Sys.Execute.{
  Transport, IsTransport, settle, read_rsp_header, execute_async, execute_finish,
}

-- The code and the stage that a response with some header leads to, for a command buffer of `max`
-- bytes.
abbrev pub verdict : ℕ → Header → ℕ × Stage
verdict max h =
    if h.tag == tpm2_st_sessions || h.tag == tpm2_st_no_sessions
    then (if ltb max h.size
        then (sys_malformed_response, cmd_stage_send_command)
        else if ltb h.size 10
        then (sys_insufficient_response, cmd_stage_prepare)
        else if h.code == tpm2_rc_canceled
        then (h.code, cmd_stage_prepare)
        else (h.code, cmd_stage_receive_response))
    else if h.tag == tpm2_st_rsp_command
    then (sys_general_failure, cmd_stage_send_command)
    else (sys_malformed_response, cmd_stage_send_command)

-- The test of the tag in the code, and the one in the verdict.
known_tag :
    (tag : ℕ)
    → (((not (tag == tpm2_st_sessions) && not (tag == tpm2_st_no_sessions)) ≡ false)
        × ((tag == tpm2_st_sessions || tag == tpm2_st_no_sessions) ≡ true))
      ⊎ (((not (tag == tpm2_st_sessions) && not (tag == tpm2_st_no_sessions)) ≡ true)
          × ((tag == tpm2_st_sessions || tag == tpm2_st_no_sessions) ≡ false))
known_tag tag = elim (Bool-cases (tag == tpm2_st_sessions)) [
  | inl a ↦ inl (rw a refl, rw a refl)
  | inr a ↦ elim (Bool-cases (tag == tpm2_st_no_sessions)) [
    | inl b ↦ inl (rw (a, b) refl, rw (a, b) refl)
    | inr b ↦ inr (rw (a, b) refl, rw (a, b) refl)
  ]
]

module _ (ctx : SysContext) (st : ctx.previous_stage ≡ cmd_stage_send_command)
    (room : 10 ≤ ctx.max_cmd_size) (inside : ctx.max_cmd_size ≤ length ctx.cmd_buffer)
    (max : ctx.max_cmd_size < size_mod) (hb : All IsByte ctx.cmd_buffer) where
  -- The context after the header was read.
  abbrev pub Settled : ℕ × Stage → Type 0
  Settled v =
      (ctx' : SysContext) × (read_rsp_header ctx ≡ some (v.0, ctx'))
      × (ctx'.previous_stage ≡ v.1)
      × (ctx'.cmd_buffer ≡ ctx.cmd_buffer)

  pub read_rsp_header-verdict : Settled (verdict ctx.max_cmd_size (parsed ctx.cmd_buffer))
  unfolding read_rsp_header settle
  read_rsp_header-verdict =
      let buf = ctx.cmd_buffer in
      let size = ctx.max_cmd_size in
      let h = parsed buf in
      let t =
        base_unmarshal_fits w2 buf size 0 ctx.rsp_header.tag (slice-IsByte 0 2 buf hb) (omega arith)
          inside max in
      let n =
        base_unmarshal_fits w4 buf size 2 ctx.rsp_header.response_size (slice-IsByte 2 4 buf hb)
          (omega arith) inside max in
      let c =
        base_unmarshal_fits w4 buf size 6 ctx.rsp_header.response_code (slice-IsByte 6 4 buf hb)
          (omega arith) inside max in
      let tagged : SysContext = record ctx {
        next_data = 2;
        rsp_header = record ctx.rsp_header { tag = h.tag };
      } in
      let sized : SysContext = record tagged {
        next_data = 6;
        rsp_header = record tagged.rsp_header { response_size = h.size };
      } in
      let coded : SysContext = record sized {
        next_data = 10;
        rsp_header = record sized.rsp_header { response_code = h.code };
      } in
      elim (known_tag h.tag) [
        | inl known ↦ elim (Bool-cases (ltb size h.size)) [
          | inl large ↦ (sized, rw (t, known.0, n, known.1, large), rw (known.1, large) st, refl)
          | inr fits ↦ elim (Bool-cases (ltb h.size 10)) [
            | inl small ↦ (
              record coded { previous_stage = cmd_stage_prepare },
              rw (t, known.0, n, known.1, fits, c, small),
              rw (known.1, fits, small),
              refl,
            )
            | inr enough ↦ elim (Bool-cases (h.code == tpm2_rc_canceled)) [
              | inl canceled ↦ (
                record coded { previous_stage = cmd_stage_prepare },
                rw (t, known.0, n, known.1, fits, c, enough, canceled),
                rw (known.1, fits, enough, canceled),
                refl,
              )
              | inr other ↦ (
                record coded { previous_stage = cmd_stage_receive_response },
                rw (t, known.0, n, known.1, fits, c, enough, other),
                rw (known.1, fits, enough, other),
                refl,
              )
            ]
          ]
        ]
        | inr unknown ↦ elim (Bool-cases (h.tag == tpm2_st_rsp_command)) [
          | inl old ↦ (tagged, rw (t, unknown.0, unknown.1, old), rw (unknown.1, old) st, refl)
          | inr bad ↦ (tagged, rw (t, unknown.0, unknown.1, bad), rw (unknown.1, bad) st, refl)
        ]
      ]

pub get_command_size-parsed :
    (ctx : SysContext)
    → 10 ≤ length ctx.cmd_buffer
    → All IsByte ctx.cmd_buffer
    → get_command_size ctx ≡ some (parsed ctx.cmd_buffer).size
unfolding get_command_size header_field
get_command_size-parsed ctx room hb = rw (
  read_within 4 2 ctx.cmd_buffer (omega arith),
  be_to_host-of_memory w4 (slice 2 4 ctx.cmd_buffer) (length-slice 2 4 ctx.cmd_buffer (omega arith))
      (slice-IsByte 2 4 ctx.cmd_buffer hb),
)

module _ (t : Transport) (ctx : SysContext) (s : t.State) where
  -- What ExecuteAsync does in a stage: it gives the transport the command, of the size in its header,
  -- and passes on the code; or it is out of sequence.
  abbrev pub Sends : Stage → Type 0
  Sends before =
      let (rc, s') = t.transmit (parsed ctx.cmd_buffer).size ctx.cmd_buffer s in
      let result = execute_async t (some (record ctx { previous_stage = before })) s in
      ((before ≡ cmd_stage_prepare)
        × (result
            ≡ some (
              rc,
              some (record ctx {
                previous_stage = if rc == rc_success then cmd_stage_send_command else before;
              }),
              s',
            )))
      ⊎ ((before ≢ cmd_stage_prepare)
          × (result ≡ some (sys_bad_sequence, some (record ctx { previous_stage = before }), s)))

  execute_async-Sends :
      (before : Stage) → 10 ≤ length ctx.cmd_buffer → All IsByte ctx.cmd_buffer → Sends before
  unfolding execute_async
  execute_async-Sends cmd_stage_prepare room hb =
      let (rc, s') = t.transmit (parsed ctx.cmd_buffer).size ctx.cmd_buffer s in
      let got =
        get_command_size-parsed (record ctx { previous_stage = cmd_stage_prepare }) room hb in
      elim (Bool-cases (rc == rc_success)) [
        | inl ok ↦ inl (refl, rw (got, ok))
        | inr bad ↦ inl (refl, rw (got, bad))
      ]
  execute_async-Sends cmd_stage_initialize room hb = inr ((λ e. cc), refl)
  execute_async-Sends cmd_stage_send_command room hb = inr ((λ e. cc), refl)
  execute_async-Sends cmd_stage_receive_response room hb = inr ((λ e. cc), refl)

  -- A call of ExecuteAsync on a buffer that holds a header returns. In the stage PREPARE the transport
  -- is given the command buffer and the size that stands in its header, and its code is the code of
  -- the call: after a success the stage is SEND_COMMAND, and otherwise it stays. In any other stage
  -- the call is out of sequence, the transport is not called and nothing changes.
  pub execute_async-stages :
      10 ≤ length ctx.cmd_buffer → All IsByte ctx.cmd_buffer → Sends ctx.previous_stage
  execute_async-stages = execute_async-Sends ctx.previous_stage

  -- A call of ExecuteFinish for a command that was sent, whose response the transport delivers,
  -- returns. The code and the stage are the verdict on the first ten bytes of the response.
  pub execute_finish-verdict :
      IsTransport t
      → ctx.previous_stage ≡ cmd_stage_send_command
      → 10 ≤ ctx.max_cmd_size
      → ctx.max_cmd_size ≤ length ctx.cmd_buffer
      → ctx.max_cmd_size < size_mod
      → All IsByte ctx.cmd_buffer
      → (t.receive ctx.max_cmd_size ctx.cmd_buffer s).0 ≡ rc_success
      → (rc : ℕ) × (ctx' : SysContext) × (s' : t.State) × (execute_finish t (some ctx) s
          ≡ some (rc, some ctx', s'))
        × ((rc, ctx'.previous_stage)
            ≡ verdict ctx.max_cmd_size (parsed (t.receive ctx.max_cmd_size ctx.cmd_buffer s).2))
        × (ctx'.cmd_buffer ≡ (t.receive ctx.max_cmd_size ctx.cmd_buffer s).2)
  unfolding execute_finish
  execute_finish-verdict law st room inside max hb ok =
      let buf = (t.receive ctx.max_cmd_size ctx.cmd_buffer s).2 in
      let filled : SysContext = record ctx { cmd_buffer = buf } in
      let l = law.received_length ctx.max_cmd_size ctx.cmd_buffer s in
      let (ctx', eq, stage, same) =
        read_rsp_header-verdict filled st room (rw l inside) max
          (law.received_bytes ctx.max_cmd_size ctx.cmd_buffer s hb) in
      (
        (verdict ctx.max_cmd_size (parsed buf)).0,
        ctx',
        (t.receive ctx.max_cmd_size ctx.cmd_buffer s).3,
        rw (st, ok, eq),
        rw stage refl,
        same,
      )
