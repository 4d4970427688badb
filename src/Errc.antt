-- ===== src/Errc.antt =====
-- libs/deeplog/src/dplx/dlog/disappointment.hpp: the error codes. A failure that another library
-- reports (its `system_code`) is `system` with that code.
use deeplog.Base.{ℕ}

pub data Errc : Type 0 where
  success bad invalid_argument not_enough_memory not_enough_space missing_data : Errc
  invalid_file_database_header invalid_record_container_header container_unlink_failed : Errc
  container_could_not_be_locked message_bus_unlink_failed unknown_argument_type_id : Errc
  unknown_attribute_type_id unknown_sink unknown_message_bus sink_finalization_failed : Errc
  invalid_dmpscb_header invalid_dmpscb_parameters invalid_dmpscb_file_size : Errc
  system : ℕ → Errc
