-- ===== src/Sys/Command/Safe.antt =====
-- Completing a command on a response of any bytes.
use tpm2_tss_verified.Common.{
  ℕ, ◌+◌, ◌%◌, ◌≤◌, ◌<◌, ◌≡◌, ◌≢◌, refl, subst, ◌⊎◌, inl, inr, true, false, if◌then◌else◌, ==→eq,
  Option, some, none, length, All, Bool-cases, ltb, ◌==◌, arith,
}
use tpm2_tss_verified.Rc.{
  rc_success, sys_malformed_response, sys_bad_sequence, tpm2_st_sessions, mu_insufficient_buffer,
}
use tpm2_tss_verified.Memory.{size_mod, slice, read_within, length-slice}
use tpm2_tss_verified.Endian.{w2, w4, IsByte, of_be, be_to_host-of_memory, slice-IsByte}
use tpm2_tss_verified.Mu.Base.{too_small, base_unmarshal}
use tpm2_tss_verified.Mu.Base.Laws.{base_unmarshal_fits}
use tpm2_tss_verified.Mu.Format.{Format}
use tpm2_tss_verified.Sys.{
  Stage, cmd_stage_initialize, cmd_stage_prepare, cmd_stage_send_command,
  cmd_stage_receive_response, SysContext, header_field, common_complete,
}
use tpm2_tss_verified.Sys.Command.{Getting, get, got_all, ◌followed_by◌, behind_common, complete}

-- A context whose command buffer is as large as it says.
pub record HasBuffer (ctx : SysContext) : Type 0 where
  pub bytes : All IsByte ctx.cmd_buffer
  pub header : 10 ≤ ctx.max_cmd_size
  pub inside : ctx.max_cmd_size ≤ length ctx.cmd_buffer
  pub max : ctx.max_cmd_size < size_mod

-- What a success means for a result: the context in which it was read, the place behind what was
-- read, and the result.
abbrev pub Reading : Type 0 → Type 1
Reading A = SysContext → ℕ → A → Type 0

-- The results are in their place, and after a success they were read.
abbrev pub Returned :
    {A : Type 0} → (A → Type 0) → Reading A → SysContext → Option (ℕ × SysContext × A) → Type 0
Returned Shape Reads ctx r =
    (rc next : ℕ) × (dest : _) × Shape dest
    × ((rc ≢ rc_success) ⊎ Reads ctx next dest)
    × (r ≡ some (rc, record ctx { next_data = next }, dest))

-- A part of X_Complete that returns on any bytes, for results with room for what they take.
pub record IsSafe {A : Type 0} (Shape : A → Type 0) (Reads : Reading A) (part : Getting A)
    : Type 0 where
  pub returns :
      (ctx : SysContext) (dest : A)
      → HasBuffer ctx
      → Shape dest
      → Returned Shape Reads ctx (part ctx dest)

-- A pointer to an object with room.
abbrev pub Given : {A : Type 0} → (A → Type 0) → Option A → Type 0
Given Shape none = ⊥
Given Shape (some d) = Shape d

module _ {A V : Type 0} (f : Format A V) where
  -- The wire format of the result stands in the command buffer, at the place that was next.
  abbrev pub Stands : Reading (Option A)
  Stands ctx next none = ⊥
  Stands ctx next (some a) =
      f.codec.IsValid a
      × (next ≡ ctx.next_data + length (f.codec.encode (f.codec.view a)))
      × (next ≤ ctx.max_cmd_size)
      × (slice ctx.next_data (length (f.codec.encode (f.codec.view a))) ctx.cmd_buffer
          ≡ f.codec.encode (f.codec.view a))

  get_returns :
      (ctx : SysContext) (dest : Option A)
      → HasBuffer ctx
      → Given f.codec.HasShape dest
      → Returned (Given f.codec.HasShape) Stands ctx (get f ctx dest)
  unfolding get
  get_returns ctx none has shape = absurd shape
  get_returns ctx (some d) has shape =
      elim (f.law.decodes d ctx.cmd_buffer ctx.max_cmd_size ctx.next_data shape has.bytes has.inside
        has.max) [
          | inl a ↦ (
            rc_success,
            ctx.next_data + length (f.codec.encode (f.codec.view a.object)),
            some a.object,
            f.law.valid_shape a.object a.valid,
            inr (a.valid, refl, a.inside, a.encoded),
            rw a.result,
          )
          | inr r ↦ (r.code, ctx.next_data, some r.left, r.shape, inl r.failed, rw r.result)
        ]

  pub get-IsSafe : IsSafe (Given f.codec.HasShape) Stands (get f)
  get-IsSafe = record { returns = get_returns }

-- Nothing was read.
abbrev pub Stays : Reading (Unit {0})
Stays ctx next dest = next ≡ ctx.next_data

pub got_all-IsSafe : IsSafe (λ (_ : Unit {0}). Unit {0}) Stays got_all
unfolding got_all
got_all-IsSafe = record {
  returns = λ ctx dest has shape. (rc_success, ctx.next_data, tt, tt, inr refl, refl);
}

-- The buffer stays when the next place moves.
moved : (ctx : SysContext) (next : ℕ) → HasBuffer ctx → HasBuffer (record ctx { next_data = next })
moved ctx next has = record {
  bytes = has.bytes;
  header = has.header;
  inside = has.inside;
  max = has.max;
}

-- A code that is not success, by the test of the code.
failed_test : (rc : ℕ) → (rc == rc_success) ≡ false → rc ≢ rc_success
failed_test rc h e = ground arith

-- What a success was, once the code is known to be one.
succeeded : {X : Type 0} (rc : ℕ) → (rc == rc_success) ≡ true → (rc ≢ rc_success) ⊎ X → X
succeeded rc h (inl bad) = absurd (bad (==→eq rc rc_success h))
succeeded rc h (inr x) = x

-- One part behind the other.
abbrev pub ThenReads : {A B : Type 0} → Reading A → Reading B → Reading (A × B)
ThenReads R S ctx next ab =
    (mid : ℕ) × R ctx mid ab.0 × S (record ctx { next_data = mid }) next ab.1

module _ {A B : Type 0} (P : A → Type 0) (Q : B → Type 0) (R : Reading A) (S : Reading B)
    (first : Getting A) (second : Getting B) (first_safe : IsSafe P R first)
    (second_safe : IsSafe Q S second) where
  pub followed_by-IsSafe :
      IsSafe (λ (ab : A × B). P ab.0 × Q ab.1) (ThenReads R S) (first followed_by second)
  unfolding ◌followed_by◌
  followed_by-IsSafe = record {
    returns = λ ctx dest has shape.
        let (rc, next, a, pa, was, e) = first_safe.returns ctx dest.0 has shape.0 in
        let here : SysContext = record ctx { next_data = next } in
        let (rc', next', b, qb, was', e') =
          second_safe.returns here dest.1 (moved ctx next has) shape.1 in
        elim (Bool-cases (rc == rc_success)) [
          | inl fine ↦ (
            rc',
            next',
            (a, b),
            (pa, qb),
            elim was' [ inl bad ↦ inl bad | inr reads ↦ inr (next, succeeded rc fine was, reads) ],
            rw (e, fine, e'),
          )
          | inr bad ↦ (rc, next, (a, dest.1), (pa, shape.1), inl (failed_test rc bad), rw (e, bad))
        ];
  }

-- Where the parameters of a response start: behind their size, in a response with sessions.
abbrev pub params_start : SysContext → ℕ
params_start ctx =
    if of_be (slice 0 2 ctx.cmd_buffer) == tpm2_st_sessions
    then (ctx.rsp_params_size + 4) % size_mod
    else ctx.rsp_params_size

CompleteReturned : SysContext → Option (ℕ × SysContext) → Type 0
CompleteReturned ctx r =
    (rc next : ℕ) × ((rc ≢ rc_success) ⊎ (next ≡ params_start ctx))
    × (r ≡ some (rc, record ctx { next_data = next }))

module _ (ctx : SysContext) (has : HasBuffer ctx) where
  pub read_size :
      (stage : Stage)
      → header_field 2 (record ctx { previous_stage = stage })
        ≡ some (of_be (slice 2 4 ctx.cmd_buffer))
  unfolding header_field
  read_size stage =
      let h = has.header in
      let i = has.inside in
      rw (
        read_within 4 2 ctx.cmd_buffer (omega arith),
        be_to_host-of_memory w4 (slice 2 4 ctx.cmd_buffer)
            (length-slice 2 4 ctx.cmd_buffer (omega arith))
            (slice-IsByte 2 4 ctx.cmd_buffer has.bytes),
      )

  skip_returns :
      (next : ℕ)
      → (rc next' : ℕ) × ((rc ≢ rc_success) ⊎ (next' ≡ (next + 4) % size_mod))
        × (base_unmarshal w4 (some ctx.cmd_buffer) ctx.max_cmd_size (some next) none
            ≡ some (record { rc = rc; offset = some next'; dest = none }))
  unfolding base_unmarshal
  skip_returns next = elim (Bool-cases (too_small ctx.max_cmd_size next 4)) [
    | inl small ↦ (mu_insufficient_buffer, next, inl (λ e. omega arith), rw small)
    | inr fits ↦ (rc_success, (next + 4) % size_mod, inr refl, rw fits)
  ]

  complete_at :
      (stage : Stage)
      → CompleteReturned
          (record ctx { previous_stage = stage })
          (common_complete (record ctx { previous_stage = stage }))
  unfolding common_complete CompleteReturned
  complete_at cmd_stage_initialize =
      elim (Bool-cases (ltb ctx.max_cmd_size (of_be (slice 2 4 ctx.cmd_buffer)))) [
        | inl big ↦ (
          sys_malformed_response,
          ctx.next_data,
          inl (λ e. omega arith),
          rw (read_size cmd_stage_initialize, big),
        )
        | inr small ↦ (
          sys_bad_sequence,
          ctx.next_data,
          inl (λ e. omega arith),
          rw (read_size cmd_stage_initialize, small),
        )
      ]
  complete_at cmd_stage_prepare =
      elim (Bool-cases (ltb ctx.max_cmd_size (of_be (slice 2 4 ctx.cmd_buffer)))) [
        | inl big ↦ (
          sys_malformed_response,
          ctx.next_data,
          inl (λ e. omega arith),
          rw (read_size cmd_stage_prepare, big),
        )
        | inr small ↦ (
          sys_bad_sequence,
          ctx.next_data,
          inl (λ e. omega arith),
          rw (read_size cmd_stage_prepare, small),
        )
      ]
  complete_at cmd_stage_send_command =
      elim (Bool-cases (ltb ctx.max_cmd_size (of_be (slice 2 4 ctx.cmd_buffer)))) [
        | inl big ↦ (
          sys_malformed_response,
          ctx.next_data,
          inl (λ e. omega arith),
          rw (read_size cmd_stage_send_command, big),
        )
        | inr small ↦ (
          sys_bad_sequence,
          ctx.next_data,
          inl (λ e. omega arith),
          rw (read_size cmd_stage_send_command, small),
        )
      ]
  complete_at cmd_stage_receive_response =
      let tag = of_be (slice 0 2 ctx.cmd_buffer) in
      let h = has.header in
      let tagged =
        base_unmarshal_fits w2 ctx.cmd_buffer ctx.max_cmd_size 0 0
          (slice-IsByte 0 2 ctx.cmd_buffer has.bytes) (omega arith) has.inside has.max in
      let (rc, next, was, skipped) = skip_returns ctx.rsp_params_size in
      elim (Bool-cases (ltb ctx.max_cmd_size (of_be (slice 2 4 ctx.cmd_buffer)))) [
        | inl big ↦ (
          sys_malformed_response,
          ctx.next_data,
          inl (λ e. omega arith),
          rw (read_size cmd_stage_receive_response, big),
        )
        | inr small ↦ elim (Bool-cases (tag == tpm2_st_sessions)) [
          | inl sessions ↦ (
            rc,
            next,
            rw sessions was,
            rw (read_size cmd_stage_receive_response, small, tagged, sessions, skipped),
          )
          | inr plain ↦ (
            rc_success,
            ctx.rsp_params_size,
            rw plain (inr refl),
            rw (read_size cmd_stage_receive_response, small, tagged, plain),
          )
        ]
      ]

  common_complete_returns : CompleteReturned ctx (common_complete ctx)
  common_complete_returns = complete_at ctx.previous_stage

-- Behind the frame of the response, where its parameters start.
abbrev pub ReadsFramed : {A : Type 0} → Reading A → Reading A
ReadsFramed R ctx next dest = R (record ctx { next_data = params_start ctx }) next dest

module _ {A : Type 0} (Shape : A → Type 0) (R : Reading A) (rest : Getting A)
    (safe : IsSafe Shape R rest) where
  pub behind_common-IsSafe : IsSafe Shape (ReadsFramed R) (behind_common rest)
  unfolding behind_common CompleteReturned
  behind_common-IsSafe = record {
    returns = λ ctx dest has shape.
        let (rc, next, was, e) = common_complete_returns ctx has in
        let here : SysContext = record ctx { next_data = next } in
        let (rc', next', dest', shape', was', e') =
          safe.returns here dest (moved ctx next has) shape in
        elim (Bool-cases (rc == rc_success)) [
          | inl fine ↦ (
            rc',
            next',
            dest',
            shape',
            elim was' [
              | inl bad ↦ inl bad
              | inr reads ↦ inr (
                  subst (λ (n : ℕ). R (record ctx { next_data = n }) next' dest')
                    (succeeded rc fine was) reads)
            ],
            rw (e, fine, e'),
          )
          | inr bad ↦ (rc, next, dest, shape, inl (failed_test rc bad), rw (e, bad))
        ];
  }

module _ {A : Type 0} (Shape : A → Type 0) (R : Reading A) (part : Getting A)
    (safe : IsSafe Shape R part) where
  pub complete_returns :
      (ctx : SysContext) (dest : A)
      → HasBuffer ctx
      → Shape dest
      → (rc next : ℕ) × (dest' : A) × Shape dest'
        × ((rc ≢ rc_success) ⊎ R ctx next dest')
        × (complete part (some ctx) dest ≡ some (rc, some (record ctx { next_data = next }), dest'))
  unfolding complete
  complete_returns ctx dest has shape =
      let (rc, next, dest', shape', was, e) = safe.returns ctx dest has shape in
      (rc, next, dest', shape', was, rw e)
