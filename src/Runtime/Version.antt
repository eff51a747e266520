-- ===== src/Runtime/Version.antt =====
-- The version of the runtime in substrate-kitties/runtime/src/lib.rs.
use Prim.Native.String.{String}
use archer_in_zoo.Prelude.{ℕ}

-- The framework's list of runtime interfaces is a parameter.
pub record RuntimeVersion (Apis : Type 0) : Type 0 where
  pub spec_name : String
  pub impl_name : String
  pub authoring_version : ℕ
  pub spec_version : ℕ
  pub impl_version : ℕ
  pub apis : Apis

pub record NativeVersion (Apis CanAuthorWith : Type 0) : Type 0 where
  pub runtime_version : RuntimeVersion Apis
  pub can_author_with : CanAuthorWith

module _ {Apis : Type 0} (runtime_api_versions : Apis) where
  abbrev pub version : RuntimeVersion Apis
  version = record {
    spec_name = "substrate-kitties";
    impl_name = "substrate-kitties";
    authoring_version = 3;
    spec_version = 4;
    impl_version = 4;
    apis = runtime_api_versions;
  }

  -- The second argument is the default of its type.
  unfoldable pub native_version :
      {CanAuthorWith : Type 0} → (default : CanAuthorWith) → NativeVersion Apis CanAuthorWith
  native_version default = record { runtime_version = version; can_author_with = default }
