-- ===== src/Generator/Generated.antt =====
-- The generators against the files that the repository has of them: the texts are those of
-- lib/python/satos_payload_sdk/gen/antaris_api_types.py and defs/gen/proto/antaris_api.proto
-- for some types of defs/api/antaris_api.xml.
mod CppFiles
use Prim.Native.String.{◌++◌}
use sat_os_payload_sdk.Prelude.{String, ◌≡◌, refl, List, [], ◌∷◌, Option, none, some}
use sat_os_payload_sdk.Exec.{Result, ok, raised}
use sat_os_payload_sdk.Generator.Text.{write, for_each, padded}
use sat_os_payload_sdk.Generator.Interface.{EnumValue, Enum, Field, Struct}
use sat_os_payload_sdk.Generator.Py
use sat_os_payload_sdk.Generator.Proto

abbrev pub shutdown_params : Struct
shutdown_params = record {
  name = some "RespShutdownParams";
  description = some "Response parameters for application shutdown request from PC";
  consumed_by = none;
  fields =
      record {
        name = some "correlation_id";
        type = some "UINT16";
        description = some "correlation id for matching requests with responses and callbacks";
        sequence = some "1";
        consumed_by = none;
        array_xml = none;
      }
      ∷ record {
        name = some "req_status";
        type = some "INT32";
        description = some "status of payload application shutdown request";
        sequence = some "2";
        consumed_by = none;
        array_xml = none;
      }
      ∷ [];
}

abbrev pub sequence_done_params : Struct
sequence_done_params = record {
  name = some "CmdSequenceDoneParams";
  description = some "Parameters for Command Sequence Done notification to Payload Controller";
  consumed_by = none;
  fields =
      record {
        name = some "sequence_id";
        type = some "INT8";
        description =
            some
              "sequence id that has completed execution. MUST agree with StartSequenceParams.sequence-id.";
        sequence = some "1";
        consumed_by = none;
        array_xml = some "16";
      }
      ∷ [];
}

abbrev pub metrics_response : Struct
metrics_response = record {
  name = some "PayloadMetricsResponse";
  description = some "Payload Metrics Parameters";
  consumed_by = none;
  fields =
      record {
        name = some "correlation_id";
        type = some "UINT16";
        description = some "correlation id for matching requests with responses and callbacks";
        sequence = some "1";
        consumed_by = none;
        array_xml = none;
      }
      ∷ record {
        name = some "timestamp";
        type = some "UINT64";
        description = some "Capture time stamp";
        sequence = some "2";
        consumed_by = none;
        array_xml = none;
      }
      ∷ record {
        name = some "used_counter";
        type = some "UINT32";
        description = some "Counters used out of maximum 32 counters";
        sequence = some "3";
        consumed_by = none;
        array_xml = none;
      }
      ∷ record {
        name = some "metrics";
        type = some "PayloadMetricsInfo";
        description = some "Counter values, maximum 32 counters";
        sequence = some "4";
        consumed_by = none;
        array_xml = some "8";
      }
      ∷ [];
}

py_struct : Py.write_struct "antaris_api" shutdown_params "" ≡ (
  ok tt,
  "## @class: RespShutdownParams\n"
      ++ "## @brief: Response parameters for application shutdown request from PC\n"
      ++ "## @param: correlation_id                                  :    correlation id for matching requests with responses and callbacks\n"
      ++ "## @param: req_status                                      :    status of payload application shutdown request  \n"
      ++ "class RespShutdownParams:\n" ++ "    def __init__(self, correlation_id, req_status):\n"
      ++ "        self.correlation_id = correlation_id\n"
      ++ "        self.req_status = req_status\n" ++ "\n" ++ "    def __str__(self):\n"
      ++ "        ret_str = \"\"\n" ++ "        ret_str += \"correlation_id:\\n\"\n"
      ++ "        ret_str += str(self.correlation_id) + \"\\n\"\n"
      ++ "        ret_str += \"req_status:\\n\"\n"
      ++ "        ret_str += str(self.req_status) + \"\\n\"\n" ++ "\n" ++ "        return ret_str\n"
      ++ "\n" ++ "    def display(self):\n" ++ "        print(str(self))\n" ++ "\n"
      ++ "def peer_to_app_RespShutdownParams(peer_struct):\n"
      ++ "    correlation_id = peer_struct.correlation_id\n"
      ++ "    req_status = peer_struct.req_status\n"
      ++ "    return RespShutdownParams(correlation_id, req_status)\n" ++ "\n"
      ++ "def app_to_peer_RespShutdownParams(app_struct):\n"
      ++ "    return antaris_api_pb2.RespShutdownParams(correlation_id = app_struct.correlation_id, req_status = app_struct.req_status)\n"
      ++ "\n",
)
unfolding Py.write_struct write for_each padded
py_struct = refl

proto_message : Proto.write_struct metrics_response "" ≡ (
  ok tt,
  "message PayloadMetricsResponse {\n"
      ++ "    int32                           correlation_id   = 1; // correlation id for matching requests with responses and callbacks\n"
      ++ "    int64                           timestamp        = 2; // Capture time stamp\n"
      ++ "    int32                           used_counter     = 3; // Counters used out of maximum 32 counters\n"
      ++ "    repeated PayloadMetricsInfo     metrics          = 4; // Counter values, maximum 32 counters\n"
      ++ "}\n" ++ "\n",
)
unfolding Proto.write_struct write for_each padded
proto_message = refl

proto_text : Proto.write_struct sequence_done_params "" ≡ (
  ok tt,
  "message CmdSequenceDoneParams {\n"
      ++ "    string                          sequence_id      = 1; // sequence id that has completed execution. MUST agree with StartSequenceParams.sequence-id.\n"
      ++ "}\n" ++ "\n",
)
unfolding Proto.write_struct write for_each padded
proto_text = refl

abbrev pub return_code : Enum
return_code = record {
  name = some "AntarisReturnCode";
  description = some "Api return codes";
  consumed_by = none;
  enum_values =
      record { name = some "An_SUCCESS"; description = some "Success"; value = some "0" }
      ∷ record {
        name = some "An_GENERIC_FAILURE";
        description = some "Generic failure";
        value = some "-1";
      }
      ∷ record {
        name = some "An_NOT_IMPLEMENTED";
        description = some "Feature/interface not implemented";
        value = some "-2";
      }
      ∷ record {
        name = some "An_OUT_OF_RESOURCES";
        description = some "Not enough resources";
        value = some "-3";
      }
      ∷ record {
        name = some "An_NOT_PERMITTED";
        description = some "Operation not allowed";
        value = some "-4";
      }
      ∷ record {
        name = some "An_INVALID_PARAMS";
        description = some "Invalid parameter";
        value = some "-5";
      }
      ∷ record {
        name = some "An_INCOMPATIBLE_VERSION";
        description = some "Incompatible version of SDK invocation";
        value = some "-6";
      }
      ∷ [];
}

py_enum : Py.write_enum return_code "" ≡ (
  ok tt,
  "# ENUM: AntarisReturnCode - Api return codes\n" ++ "class AntarisReturnCode:\n"
      ++ "    An_SUCCESS = 0 # Success\n" ++ "    An_GENERIC_FAILURE = -1 # Generic failure\n"
      ++ "    An_NOT_IMPLEMENTED = -2 # Feature/interface not implemented\n"
      ++ "    An_OUT_OF_RESOURCES = -3 # Not enough resources\n"
      ++ "    An_NOT_PERMITTED = -4 # Operation not allowed\n"
      ++ "    An_INVALID_PARAMS = -5 # Invalid parameter\n"
      ++ "    An_INCOMPATIBLE_VERSION = -6 # Incompatible version of SDK invocation\n" ++ "\n"
      ++ "\n"
      ++ "    reverse_dict = {0 : \"An_SUCCESS\", -1 : \"An_GENERIC_FAILURE\", -2 : \"An_NOT_IMPLEMENTED\", -3 : \"An_OUT_OF_RESOURCES\", -4 : \"An_NOT_PERMITTED\", -5 : \"An_INVALID_PARAMS\", -6 : \"An_INCOMPATIBLE_VERSION\"}\n"
      ++ "\n" ++ "\n" ++ "\n",
)
unfolding Py.write_enum write for_each
py_enum = refl

proto_enum : Proto.write_enum return_code "" ≡ (
  ok tt,
  "enum AntarisReturnCode {\n" ++ "    An_SUCCESS                       = 0; // Success\n"
      ++ "    An_GENERIC_FAILURE               = -1; // Generic failure\n"
      ++ "    An_NOT_IMPLEMENTED               = -2; // Feature/interface not implemented\n"
      ++ "    An_OUT_OF_RESOURCES              = -3; // Not enough resources\n"
      ++ "    An_NOT_PERMITTED                 = -4; // Operation not allowed\n"
      ++ "    An_INVALID_PARAMS                = -5; // Invalid parameter\n"
      ++ "    An_INCOMPATIBLE_VERSION          = -6; // Incompatible version of SDK invocation\n"
      ++ "}\n" ++ "\n",
)
unfolding Proto.write_enum write for_each padded
proto_enum = refl
