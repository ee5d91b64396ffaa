-- ===== src/Examples/Findings.antt =====
-- doctor.py on the sample hosts.
use nvidia_converge.Common.{◌≡◌, ◌↔◌, refl, [], ◌∷◌, map}
use nvidia_converge.Models.{default_desired}
use nvidia_converge.Doctor.{diagnose, healthy}
use nvidia_converge.Examples.Program.{doctor_program}
use nvidia_converge.Doctor.Spec.{Compliant}
use nvidia_converge.Doctor.Compliance.{diagnose-healthy}
use nvidia_converge.Examples.Hosts.{compliant_host, unsupported_host}

diagnose-compliant : diagnose default_desired compliant_host ≡ healthy ∷ []
unfolding doctor_program
diagnose-compliant = refl

diagnose-unsupported :
    map (λ f. f.id) (diagnose default_desired unsupported_host) ≡ "gpu.open-module-unsupported" ∷ []
unfolding doctor_program
diagnose-unsupported = refl

pub compliant_host-Compliant : Compliant default_desired compliant_host
compliant_host-Compliant = (diagnose-healthy default_desired compliant_host).0 diagnose-compliant

diagnose-healthy_example :
    (diagnose default_desired compliant_host ≡ healthy ∷ [])
    ↔ Compliant default_desired compliant_host
diagnose-healthy_example = diagnose-healthy default_desired compliant_host
