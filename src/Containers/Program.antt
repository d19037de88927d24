-- ===== src/Containers/Program.antt =====
-- No container is left by the program.
use problem_verifier.Prelude.Result.{Result}
use problem_verifier.Runtime.{Runtime}
use problem_verifier.TimeLimits.{TimeLimits}
use problem_verifier.ProblemConfig.{ProblemConfig}
use problem_verifier.World.{World}
