-- ===== src/Tests/Samples.antt =====
-- A platform, a build and a world to run the model in.
use greybus_for_zephyr.Base.{
  ℕ, zero, suc, refl, Bool, true, false, Option, none, some, List, [], ◌∷◌, ℤ, pos, negsuc, arith,
}
use greybus_for_zephyr.Errno.{Errno, IsPositive}
use greybus_for_zephyr.Manifest.{Build}
use greybus_for_zephyr.Core.{Message, Operation, State, World}
use greybus_for_zephyr.Core.Quiet.{IsTame}
use greybus_for_zephyr.Core.Register.{fresh_cport}
use greybus_for_zephyr.Handlers.{Driver, Handler}

instance abbrev pub posix : Errno
posix = record {
  enomem = 12;
  eintr = 4;
  etimedout = 116;
  eproto = 71;
  enosys = 88;
  einval = 22;
  eoverflow = 139;
  enodev = 19;
  enxio = 6;
  ebusy = 16;
  eexist = 17;
  enetdown = 115;
  enotsup = 134;
  enotconn = 128;
  eio = 5;
  ebadf = 9;
  enoent = 2;
  ealready = 120;
}

pub posix-IsPositive : IsPositive posix
posix-IsPositive = record {
  enomem_pos = omega arith;
  eintr_pos = omega arith;
  etimedout_pos = omega arith;
  eproto_pos = omega arith;
  enosys_pos = omega arith;
  einval_pos = omega arith;
  eoverflow_pos = omega arith;
  enodev_pos = omega arith;
  enxio_pos = omega arith;
  ebusy_pos = omega arith;
  eexist_pos = omega arith;
  enetdown_pos = omega arith;
  enotsup_pos = omega arith;
  enotconn_pos = omega arith;
  eio_pos = omega arith;
  ebadf_pos = omega arith;
  enoent_pos = omega arith;
  ealready_pos = omega arith;
}

instance abbrev pub plain_build : Build
plain_build = record { has_mikrobus = false; malloc_ok = λ n. true }

-- A world in which the backend answers `retval`, and alloc_buf gives a buffer or not.
abbrev pub world_of : ℤ → Bool → World
world_of retval room = record {
  send = λ trace c msg. retval;
  send_async = λ trace c msg. retval;
  listen = λ trace c. pos 0;
  stop_listening = λ trace c. pos 0;
  alloc_buf = λ trace size. room;
  malloc = λ trace. true;
  clock = λ trace. record { tv_sec = 0; tv_nsec = 0 };
  pthread_create = λ trace c. pos 0;
  init = λ trace f c. pos 0;
  unipro_cport_count = 4;
  tape_open = λ trace mode. pos 3;
  max_bundle_id = 1;
  num_cports_bundle = λ b. 1;
  start_cport_bundle = λ b. 0;
  run_handler = λ f p s. (0, s);
  run_fast = λ f c msg s. s;
  run_callback = λ f p s. s;
}

instance abbrev pub fine_world : World
fine_world = world_of (pos 0) true

abbrev pub broken_world : World
broken_world = world_of (negsuc 4) true

abbrev pub full_world : World
full_world = world_of (pos 0) false

pub fine_world-IsTame : IsTame fine_world
fine_world-IsTame = record {
  handler_tame = λ f p s c. refl;
  fast_tame = λ f c msg s d. refl;
  callback_tame = λ f p s c. refl;
}

abbrev pub ping : Message
ping = record { size = 8; id = 7; typ = 0; result = 0; payload = [] }

abbrev pub ping_handlers : List Handler
ping_handlers =
    record { typ = 0; handler = 1; fast_handler = none }
    ∷ record { typ = 2; handler = 2; fast_handler = none }
    ∷ []

abbrev pub ping_driver : Driver
ping_driver = record {
  init = none;
  exit = none;
  connected = none;
  disconnected = none;
  op_handlers = some ping_handlers;
  op_handlers_count = 2;
  bundle = some 0;
}

abbrev pub operation_of : ℕ → Option ℕ → Operation
operation_of ref_count response = record {
  cport = 0;
  has_responded = false;
  ref_count = ref_count;
  time = record { tv_sec = 0; tv_nsec = 0 };
  request_buffer = ping;
  response_buffer = none;
  is_unipro_rx_buf = false;
  callback = none;
  sync_sem = 0;
  response = response;
  bundle = none;
}

-- A core of four cports with a driver on each.
abbrev pub state_of : (ℕ → Option Operation) → State
state_of ops = record {
  cport_count = 4;
  cports = λ c. record fresh_cport { driver = some 0; thread = true };
  request_id = 0;
  drivers = λ d. ping_driver;
  bundles = λ b. none;
  ops = ops;
  next_op = 2;
  has_backend = true;
  gb_tape = some 0;
  gb_tape_fd = negsuc 8;
  trace = [];
}

-- operation 0, which has the response 1
abbrev pub answered_ops : ℕ → Option Operation
answered_ops zero = some (operation_of 1 (some 1))
answered_ops (suc zero) = some (operation_of 2 none)
answered_ops (suc (suc p)) = none

-- operation 0 alone
abbrev pub single_op : ℕ → Option Operation
single_op zero = some (operation_of 1 none)
single_op (suc p) = none
