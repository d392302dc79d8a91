-- ===== src/BuildInfo.antt =====
-- cmd/api/version.go and cmd/worker/version.go, which are the same: what is printed first.
use Prim.Native.String as Str
use avatars.Prelude.{String, ◌==◌, ◌≡◌, refl, if◌then◌else◌}

-- The variables that the linker sets.
pub record Build : Type 0 where
  pub version : String
  pub date : String
  pub commit : String

unfoldable pub value_or_na : String → String
value_or_na value = if value == "" then "N/A" else value

line : String → String → String
line label value = Str.◌++◌ label (Str.◌++◌ (value_or_na value) "\n")

-- What printBuildInfo writes to the standard output.
unfoldable pub print_build_info : Build → String
unfolding value_or_na line
print_build_info b =
    Str.◌++◌ (line "Build version: " b.version)
      (Str.◌++◌ (line "Build date: " b.date) (line "Build commit: " b.commit))

print_tests :
    print_build_info (record { version = "1.2"; date = ""; commit = "" })
    ≡ "Build version: 1.2\nBuild date: N/A\nBuild commit: N/A\n"
unfolding print_build_info
print_tests = refl
