-- ===== src/Lib.antt =====
-- The command path of the TPM2 software stack: byte order and marshalling (src/tss2-mu), the
-- transport to the simulator (src/tss2-tcti) over sockets (src/util), and the execution of a
-- command by the system API (src/tss2-sys).
--
-- The system API frames the parameters of a command with a header, hands the command to a
-- transport and reads the header of the response. The transport to the simulator reads the header
-- of the command buffer, sends it behind a frame of its own, and hands back the response in two
-- calls, one for the size and one for the bytes. It marshals headers and frames with the functions
-- of src/tss2-mu and moves them with those of src/util/io.c.
--
-- Which file models what:
-- - Common: names of the libraries, lists and Boolean tests over the native numbers, and the bind
--   of computations that may fault. Rc: the return codes of include/tss2/tss2_common.h. Memory:
--   byte arrays, memcpy with its bounds, and the writing and cutting of ranges.
-- - Endian: src/util/tss2_endian.h on a little-endian host.
-- - Mu.Base: BASE_MARSHAL, BASE_UNMARSHAL, TPMA_MARSHAL and TPMA_UNMARSHAL of
--   src/tss2-mu/base-types.c and tpma-types.c, as base_marshal, base_unmarshal, tpma_marshal and
--   tpma_unmarshal, for an integer of any width. Mu.Tpm2b: TPM2B_MARSHAL and TPM2B_UNMARSHAL of
--   tpm2b-types.c, for any capacity. Mu.Tpml: TPML_MARSHAL and TPML_UNMARSHAL of tpml-types.c, for
--   any item. Mu.Tpms: the macros of tpms-types.c for two to five members, written as chains.
--   Mu.Types: the types that these macros make, and Mu.Table a table of them, for statements about
--   all at once.
-- - Mu.Codec holds the contract of a pair of marshalling functions. The laws of each macro
--   (Mu.Base.Laws, Mu.Tpm2b.Laws, Mu.Tpml.Law, Mu.Tpms.Law) are stated in its terms, and
--   Mu.RoundTrip uses nothing else.
-- - Io: read_all, write_all, socket_recv_buf, socket_xmit_buf and socket_close of src/util/io.c,
--   in the branches for POSIX. Io.System: read(2), write(2) and close(2) as an interface, with
--   their documented behaviour as laws. Io.Complete: the loops. Io.Pipe: a kernel for tests.
-- - Tcti: the state, the checks and the header functions of src/tss2-tcti/tcti-common.c.
--   Tcti.Machine: the state machine that the comment in tcti-common.h documents. Tcti.Mssim:
--   platform commands and frames of src/tss2-tcti/tcti-mssim.c, and Tcti.Mssim.Handlers its
--   handlers, which Tcti.Mssim.Transmit, Platform, Receive and Faults are about.
-- - Sys: the context of src/tss2-sys/sysapi_util.c, whose pointers into the command buffer are
--   offsets, and the prologue, the epilogue and the completion of a command. Sys.Handles: its
--   table of handles. Sys.Execute: src/tss2-sys/api/Tss2_Sys_Execute.c, over a transport given as
--   an interface. Sys.Initialize: Tss2_Sys_Initialize and Tss2_Sys_GetContextSize, where the size
--   of the structure is a parameter. Sys.Prepare and Sys.Finish are about them, and Sys.Simulator
--   about a command on its way from sysapi_util.c to tcti-mssim.c.
-- - Sys.Params: GetDecryptParam, SetDecryptParam, GetEncryptParam, SetEncryptParam, GetCpBuffer,
--   GetRpBuffer and GetCommandCode of src/tss2-sys/api, each in a file Tss2_Sys_X.c. Sys.Auths:
--   SetCmdAuths and GetRspAuths. Sys.Frame: what it means for a context to hold a prepared
--   command.
-- - Sys.Command: the frame that the functions Tss2_Sys_X_Prepare, Tss2_Sys_X_Complete and
--   Tss2_Sys_X share, and CommonOneCall; Sys.Command.Framed, Authorised, Safe, Completed and
--   Exchange are about it. Sys.Commands: these three functions for every command X, as x_prepare,
--   x_complete and x, with the arguments of Prepare and with the pointers to the results as one
--   tuple; the children are named for the chapters of the TPM's specification, and
--   Sys.Commands.Laws and Random are about single commands. A type whose functions are not
--   modelled is a field of OtherTypes, a format with the contract that the modelled types meet.
--   The types read by TPM2B_UNMARSHAL_SUBTYPE do not keep it when the nested structure is
--   malformed; what is stated of any format says nothing of them then.
--
-- Conventions: a result none is a fault, an access outside an object. A pointer that may be NULL
-- is an Option. size_t wraps at 2^64; a sum of an offset and a size is written with its remainder.
-- Logging is left out. The loops of Io take fuel: one call per byte, one per signal that is still
-- to come, and one more, which is enough because a call that is not interrupted moves at least one
-- byte or ends the loop. The int to which a count of bytes is assigned in socket_xmit_buf and
-- tcti_mssim_receive is written out (Io.int_lt); that of TEMP_RETRY and those that count four
-- bytes hold what they are given, since read(2) and write(2) move at most 0x7ffff000 bytes in a
-- call.
--
-- Not modelled: the marshalling of tagged types and unions, of PCR selections and of the types
-- that nest a structure in a sized buffer, which the commands take as OtherTypes; socket_connect
-- and the parsing of the configuration string, and with them Tss2_Tcti_Mssim_Init; the other
-- transports; of the system API the one call of CreateLoaded; the enhanced API.
pub mod Common
pub mod Rc
pub mod Memory
pub mod Endian
pub mod Io
pub mod Mu
pub mod Sys
pub mod Tcti
