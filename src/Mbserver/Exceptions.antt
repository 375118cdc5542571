-- ===== src/Mbserver/Exceptions.antt =====
-- internal/mbserver/exceptions.go: the exception codes. The handlers return pointers to these
-- variables and compare the pointers, so each variable is a constructor.
use Prim.Native.String.{String}
use virtual_bess.Prelude.{ℕ, Bool, true, false, ◌==◌, if◌then◌else◌}

pub data Exception : Type 0 where
  success : Exception
  illegal_function : Exception
  illegal_data_address : Exception
  illegal_data_value : Exception
  slave_device_failure : Exception
  acknowledge_slave : Exception
  slave_device_busy : Exception
  negative_acknowledge : Exception
  memory_parity_error : Exception
  gateway_path_unavailable : Exception
  gateway_target_device_failedto_respond : Exception

-- the `uint8` value of each variable
unfoldable pub code : Exception → ℕ
code success = 0
code illegal_function = 1
code illegal_data_address = 2
code illegal_data_value = 3
code slave_device_failure = 4
code acknowledge_slave = 5
code slave_device_busy = 6
code negative_acknowledge = 7
code memory_parity_error = 8
code gateway_path_unavailable = 10
code gateway_target_device_failedto_respond = 11

-- `Exception.String`, on the `uint8` that an exception is
unfoldable pub exception_string : ℕ → String
exception_string e =
    if e == 0
    then "Success"
    else if e == 1
    then "IllegalFunction"
    else if e == 2
    then "IllegalDataAddress"
    else if e == 3
    then "IllegalDataValue"
    else if e == 4
    then "SlaveDeviceFailure"
    else if e == 5
    then "AcknowledgeSlave"
    else if e == 6
    then "SlaveDeviceBusy"
    else if e == 7
    then "NegativeAcknowledge"
    else if e == 8
    then "MemoryParityError"
    else if e == 10
    then "GatewayPathUnavailable"
    else if e == 11
    then "GatewayTargetDeviceFailedtoRespond"
    else "unknown"

-- `exception == &Success`
unfoldable pub is_success : Exception → Bool
is_success success = true
is_success _ = false
