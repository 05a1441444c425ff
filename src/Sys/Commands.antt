-- ===== src/Sys/Commands.antt =====
-- The functions of src/tss2-sys/api for the single commands, by the chapters of the specification
-- of the TPM, and the types they marshal of which the functions are not modelled.
pub mod Asymmetric
pub mod Attached
pub mod Attest
pub mod Context
pub mod Duplication
pub mod Hierarchy
pub mod Lockout
pub mod Nv
pub mod NvMore
pub mod Object
pub mod Credential
pub mod Pcr
pub mod Policy
pub mod PolicySecret
pub mod PolicyMore
pub mod Session
pub mod Signing
pub mod Startup
pub mod Symmetric
pub mod Sequence
pub mod Laws
pub mod Random
mod Runs
use tpm2_tss_verified.Mu.Format.{Format}

-- The other types of src/tss2-mu with their wire formats. The functions of the commands call the
-- marshalling functions of a `Format` and nothing else of it. Its contract is not one that the source
-- keeps for all of these types: TPM2B_UNMARSHAL_SUBTYPE drops the code of the nested structure.
pub record OtherTypes : Type 1 where
  pub Tpm2bAttest : Type 0
  pub Tpm2bAttestWire : Type 0
  pub tpm2b_attest : Format Tpm2bAttest Tpm2bAttestWire
  pub Tpm2bCreationData : Type 0
  pub Tpm2bCreationDataWire : Type 0
  pub tpm2b_creation_data : Format Tpm2bCreationData Tpm2bCreationDataWire
  pub Tpm2bEccPoint : Type 0
  pub Tpm2bEccPointWire : Type 0
  pub tpm2b_ecc_point : Format Tpm2bEccPoint Tpm2bEccPointWire
  pub Tpm2bEncryptedSecret : Type 0
  pub Tpm2bEncryptedSecretWire : Type 0
  pub tpm2b_encrypted_secret : Format Tpm2bEncryptedSecret Tpm2bEncryptedSecretWire
  pub Tpm2bIdObject : Type 0
  pub Tpm2bIdObjectWire : Type 0
  pub tpm2b_id_object : Format Tpm2bIdObject Tpm2bIdObjectWire
  pub Tpm2bNvPublic : Type 0
  pub Tpm2bNvPublicWire : Type 0
  pub tpm2b_nv_public : Format Tpm2bNvPublic Tpm2bNvPublicWire
  pub Tpm2bPrivate : Type 0
  pub Tpm2bPrivateWire : Type 0
  pub tpm2b_private : Format Tpm2bPrivate Tpm2bPrivateWire
  pub Tpm2bPublic : Type 0
  pub Tpm2bPublicWire : Type 0
  pub tpm2b_public : Format Tpm2bPublic Tpm2bPublicWire
  pub Tpm2bSensitive : Type 0
  pub Tpm2bSensitiveWire : Type 0
  pub tpm2b_sensitive : Format Tpm2bSensitive Tpm2bSensitiveWire
  pub Tpm2bSensitiveCreate : Type 0
  pub Tpm2bSensitiveCreateWire : Type 0
  pub tpm2b_sensitive_create : Format Tpm2bSensitiveCreate Tpm2bSensitiveCreateWire
  pub Tpm2bTemplate : Type 0
  pub Tpm2bTemplateWire : Type 0
  pub tpm2b_template : Format Tpm2bTemplate Tpm2bTemplateWire
  pub TpmlDigestValues : Type 0
  pub TpmlDigestValuesWire : Type 0
  pub tpml_digest_values : Format TpmlDigestValues TpmlDigestValuesWire
  pub TpmlPcrSelection : Type 0
  pub TpmlPcrSelectionWire : Type 0
  pub tpml_pcr_selection : Format TpmlPcrSelection TpmlPcrSelectionWire
  pub TpmsAlgorithmDetailEcc : Type 0
  pub TpmsAlgorithmDetailEccWire : Type 0
  pub tpms_algorithm_detail_ecc : Format TpmsAlgorithmDetailEcc TpmsAlgorithmDetailEccWire
  pub TpmsCapabilityData : Type 0
  pub TpmsCapabilityDataWire : Type 0
  pub tpms_capability_data : Format TpmsCapabilityData TpmsCapabilityDataWire
  pub TpmsContext : Type 0
  pub TpmsContextWire : Type 0
  pub tpms_context : Format TpmsContext TpmsContextWire
  pub TpmtHa : Type 0
  pub TpmtHaWire : Type 0
  pub tpmt_ha : Format TpmtHa TpmtHaWire
  pub TpmtPublicParms : Type 0
  pub TpmtPublicParmsWire : Type 0
  pub tpmt_public_parms : Format TpmtPublicParms TpmtPublicParmsWire
  pub TpmtRsaDecrypt : Type 0
  pub TpmtRsaDecryptWire : Type 0
  pub tpmt_rsa_decrypt : Format TpmtRsaDecrypt TpmtRsaDecryptWire
  pub TpmtSignature : Type 0
  pub TpmtSignatureWire : Type 0
  pub tpmt_signature : Format TpmtSignature TpmtSignatureWire
  pub TpmtSigScheme : Type 0
  pub TpmtSigSchemeWire : Type 0
  pub tpmt_sig_scheme : Format TpmtSigScheme TpmtSigSchemeWire
  pub TpmtSymDef : Type 0
  pub TpmtSymDefWire : Type 0
  pub tpmt_sym_def : Format TpmtSymDef TpmtSymDefWire
  pub TpmtSymDefObject : Type 0
  pub TpmtSymDefObjectWire : Type 0
  pub tpmt_sym_def_object : Format TpmtSymDefObject TpmtSymDefObjectWire
  pub TpmtTkAuth : Type 0
  pub TpmtTkAuthWire : Type 0
  pub tpmt_tk_auth : Format TpmtTkAuth TpmtTkAuthWire
  pub TpmtTkCreation : Type 0
  pub TpmtTkCreationWire : Type 0
  pub tpmt_tk_creation : Format TpmtTkCreation TpmtTkCreationWire
  pub TpmtTkHashcheck : Type 0
  pub TpmtTkHashcheckWire : Type 0
  pub tpmt_tk_hashcheck : Format TpmtTkHashcheck TpmtTkHashcheckWire
  pub TpmtTkVerified : Type 0
  pub TpmtTkVerifiedWire : Type 0
  pub tpmt_tk_verified : Format TpmtTkVerified TpmtTkVerifiedWire
