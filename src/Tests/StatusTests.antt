-- ===== src/Tests/StatusTests.antt =====
-- The status resource at concrete bodies.
use io_t_project.Prelude.{◌≡◌, some, List, codes, arith}
use io_t_project.Calls.{Call}
use io_t_project.Config.{diesel}
use io_t_project.Device.{countdown, Device}
use io_t_project.Resources.Status.{res_put_handler}
use io_t_project.Resources.Status.Startup.{IsConsistent}
use io_t_project.Power.{command_on, command_of, begins}
use io_t_project.System.Answers.{IsPutAnswer, put-get}
use io_t_project.Tests.Samples.{cold, warming}

cold-IsConsistent : IsConsistent diesel cold
cold-IsConsistent = ground arith

warming-IsConsistent : IsConsistent diesel warming
warming-IsConsistent = ground arith

put-get_example :
    (r : Device countdown × List Call) × (res_put_handler diesel 128 (some (codes "on")) warming
      ≡ some r)
    × IsPutAnswer diesel command_on warming r
unfolding command_of begins
put-get_example = put-get diesel 128 (some (codes "on")) warming-IsConsistent
