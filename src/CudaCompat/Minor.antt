-- ===== src/CudaCompat/Minor.antt =====
-- cuda_compat.py: native compatibility within a CUDA major family, and the installed package.
use nvidia_converge.Common.{
  String, ◌≡◌, ◌↔◌, refl, true, false, none, some, List, [], ◌∷◌, arith, ◌≤◌, any, ==_iff,
}
use nvidia_converge.Common.Text.{is_decimal}
use nvidia_converge.Common.Decimal.{read_int}
use nvidia_converge.Models.{PackageInfo}
use nvidia_converge.CudaCompat.{
  compatible, cuda_minor_compatibility_status, cuda_compat_package_name, is_compat_package,
  find_cuda_compat_package,
}

-- A newer branch stays compatible: a CUDA version that runs natively on one driver branch runs on
-- every numeric branch that is not older.
pub minor_compatibility_monotone :
    (older newer version : String)
    → is_decimal newer ≡ true
    → read_int older ≤ read_int newer
    → cuda_minor_compatibility_status older version ≡ compatible
    → cuda_minor_compatibility_status newer version ≡ compatible
unfolding cuda_minor_compatibility_status
minor_compatibility_monotone older newer version numeric later h = ground arith

-- A compatibility package that is found is installed, and has the name of the version's package.
pub find_cuda_compat_package-installed :
    (version : String) (packages : List PackageInfo) (p : PackageInfo)
    → find_cuda_compat_package version packages ≡ some p
    → (p.installed ≡ true) × (p.name ≡ cuda_compat_package_name version)
unfolding find_cuda_compat_package is_compat_package
find_cuda_compat_package-installed version [] p h = cc
find_cuda_compat_package-installed version (q ∷ packages) p h = ground (
  arith,
  find_cuda_compat_package-installed version packages p,
  ==_iff q.name (cuda_compat_package_name version),
)

-- No compatibility package is found exactly when no installed package has the name.
pub find_cuda_compat_package-none :
    (version : String) (packages : List PackageInfo)
    → (find_cuda_compat_package version packages ≡ none)
      ↔ (any (is_compat_package version) packages ≡ false)
unfolding find_cuda_compat_package
find_cuda_compat_package-none version [] = (λ e. refl, λ e. refl)
find_cuda_compat_package-none version (q ∷ packages) =
    let rest = find_cuda_compat_package-none version packages in
    (λ e. ground arith, λ e. ground arith)
