-- ===== src/Sys/Command/Completed.antt =====
-- The functions X_Complete, which are put together of four parts, on a response of any bytes.
use tpm2_tss_verified.Common.{ℕ, ◌≡◌, ◌≢◌, ◌⊎◌, Option, some}
use tpm2_tss_verified.Rc.{rc_success}
use tpm2_tss_verified.Mu.Format.{Format}
use tpm2_tss_verified.Sys.{SysContext}
use tpm2_tss_verified.Sys.Command.{Getting, get, got_all, ◌followed_by◌, behind_common, complete}
use tpm2_tss_verified.Sys.Command.Safe.{
  HasBuffer, Reading, IsSafe, Given, Stands, Stays, ThenReads, ReadsFramed, get-IsSafe,
  got_all-IsSafe, followed_by-IsSafe, behind_common-IsSafe, complete_returns,
}

-- The functions that are put together of those parts, with the room that their results need and what
-- their success means: a result of any type, none, one behind the other, and behind the frame of the
-- response.
pub data Parts : (A : Type 0) → (A → Type 0) → Reading A → Getting A → Type 1 where
  result :
      {A V : Type 0} (f : Format A V) → Parts (Option A) (Given f.codec.HasShape) (Stands f) (get f)
  no_result : Parts (Unit {0}) (λ (_ : Unit {0}). Unit {0}) Stays got_all
  results :
      {A B : Type 0} {P : A → Type 0} {Q : B → Type 0} {R : Reading A} {S : Reading B}
      {first : Getting A} {second : Getting B}
      → Parts A P R first
      → Parts B Q S second
      → Parts (A × B) (λ (ab : A × B). P ab.0 × Q ab.1) (ThenReads R S) (first followed_by second)
  framed :
      {A : Type 0} {P : A → Type 0} {R : Reading A} {rest : Getting A}
      → Parts A P R rest
      → Parts A P (ReadsFramed R) (behind_common rest)

Parts-IsSafe :
    {A : Type 0} {P : A → Type 0} {R : Reading A} {part : Getting A}
    → Parts A P R part
    → IsSafe P R part
Parts-IsSafe (result f) = get-IsSafe f
Parts-IsSafe no_result = got_all-IsSafe
Parts-IsSafe (results {P = P} {Q = Q} {R = R} {S = S} {first = first} {second = second} p q) =
    followed_by-IsSafe P Q R S first second (Parts-IsSafe p) (Parts-IsSafe q)
Parts-IsSafe (framed {P = P} {R = R} {rest = rest} p) =
    behind_common-IsSafe P R rest (Parts-IsSafe p)

-- X_Complete of any such parts, for results of types that meet the contract of `Format`, on a response
-- of any bytes, in any stage, for results that are given and have room: it returns, it reads nothing outside the command buffer
-- and writes nothing outside the results, and of the context it changes `nextData` only. After a
-- success each result is a valid object whose wire format stands in the command buffer: the results
-- one behind the other, those in front of the frame from `nextData` on, and those behind it from the
-- start of the parameters on.
pub complete-Parts :
    {A : Type 0} (P : A → Type 0) (R : Reading A) (part : Getting A) (ctx : SysContext) (dest : A)
    → Parts A P R part
    → HasBuffer ctx
    → P dest
    → (rc next : ℕ) × (dest' : A) × P dest'
      × ((rc ≢ rc_success) ⊎ R ctx next dest')
      × (complete part (some ctx) dest ≡ some (rc, some (record ctx { next_data = next }), dest'))
complete-Parts P R part ctx dest p = complete_returns P R part (Parts-IsSafe p) ctx dest
