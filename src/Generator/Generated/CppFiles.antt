-- ===== src/Generator/Generated/CppFiles.antt =====
-- The C++ generator against the files that the repository has: the texts are those of
-- lib/cpp/gen/antaris_api.h and lib/cpp/gen/antaris_api_autogen.cc.
use Prim.Native.String.{◌++◌}
use sat_os_payload_sdk.Prelude.{String, ◌≡◌, refl, [], ◌∷◌, Option, none, some}
use sat_os_payload_sdk.Exec.{ok}
use sat_os_payload_sdk.Generator.Text.{write, for_each, padded}
use sat_os_payload_sdk.Generator.Interface.{check_applicability, get_return_type, Function}
use sat_os_payload_sdk.Generator.Cpp
use sat_os_payload_sdk.Generator.Cpp.Functions
use sat_os_payload_sdk.Generator.Generated.{sequence_done_params, metrics_response, return_code}

abbrev int : String → Option String
int s = some s

cpp_declaration : Cpp.struct_declaration metrics_response "" ≡ (
  ok tt,
  "/// @struct PayloadMetricsResponse\n" ++ "/// @brief Payload Metrics Parameters\n"
      ++ "struct PayloadMetricsResponse {\n"
      ++ "    UINT16                                          correlation_id;                                  ///< @var correlation id for matching requests with responses and callbacks\n"
      ++ "    UINT64                                          timestamp;                                       ///< @var Capture time stamp\n"
      ++ "    UINT32                                          used_counter;                                    ///< @var Counters used out of maximum 32 counters\n"
      ++ "    PayloadMetricsInfo                              metrics[8];                                      ///< @var Counter values, maximum 32 counters\n"
      ++ "};\n" ++ "\n" ++ "void displayPayloadMetricsResponse(const void *obj);\n"
      ++ "void app_to_peer_PayloadMetricsResponse(const void *ptr_src_app, void *ptr_dst_peer);\n"
      ++ "void peer_to_app_PayloadMetricsResponse(const void *ptr_src_peer, void *ptr_dst_app);\n"
      ++ "\n",
)
unfolding Cpp.struct_declaration write for_each padded check_applicability
cpp_declaration = refl

cpp_text_source : Cpp.struct_source int "::antaris_api_peer_to_peer::" sequence_done_params "" ≡ (
  ok tt,
  "void\n" ++ "displayCmdSequenceDoneParams(const void *obj)\n" ++ "{\n"
      ++ "    CmdSequenceDoneParams *p = (CmdSequenceDoneParams *)obj;\n" ++ "\n"
      ++ "    printf(\"CmdSequenceDoneParams %p =>\\n\", obj);\n" ++ "\n"
      ++ "    printf(\"sequence_id ==>\\n\");\n" ++ "    for (int i = 0; i < 16; i++) {\n"
      ++ "        displayINT8((void *)&p->sequence_id[i]);\n" ++ "    }\n" ++ "\n" ++ "\n" ++ "}\n"
      ++ "\n" ++ "void\n"
      ++ "app_to_peer_CmdSequenceDoneParams(const void *ptr_src_app, void *ptr_dst_peer)\n" ++ "{\n"
      ++ "    CmdSequenceDoneParams *src = (CmdSequenceDoneParams *)ptr_src_app;\n"
      ++ "    ::antaris_api_peer_to_peer::CmdSequenceDoneParams *dst = (::antaris_api_peer_to_peer::CmdSequenceDoneParams *)ptr_dst_peer;\n"
      ++ "\n" ++ "\n" ++ "    dst->set_sequence_id(&src->sequence_id[0]);\n" ++ "\n" ++ "\n"
      ++ "}\n" ++ "\n" ++ "void\n"
      ++ "peer_to_app_CmdSequenceDoneParams(const void *ptr_src_peer, void *ptr_dst_app)\n" ++ "{\n"
      ++ "    CmdSequenceDoneParams *dst = (CmdSequenceDoneParams *)ptr_dst_app;\n"
      ++ "    ::antaris_api_peer_to_peer::CmdSequenceDoneParams *src = (::antaris_api_peer_to_peer::CmdSequenceDoneParams *)ptr_src_peer;\n"
      ++ "\n" ++ "    size_t sequence_id_length = strnlen(src->sequence_id().c_str(), 16);\n"
      ++ "    if ( sequence_id_length >= 16 ) {\n"
      ++ "        printf(\"Error:  sequence_id_length should be less than 16 \\n\");\n"
      ++ "        return;\n" ++ "    }\n"
      ++ "    strncpy(&dst->sequence_id[0], src->sequence_id().c_str(), 16);\n" ++ "\n" ++ "}\n"
      ++ "\n",
)
unfolding Cpp.struct_source write for_each padded check_applicability
cpp_text_source = refl

cpp_array_source : Cpp.struct_source int "::antaris_api_peer_to_peer::" metrics_response "" ≡ (
  ok tt,
  "void\n" ++ "displayPayloadMetricsResponse(const void *obj)\n" ++ "{\n"
      ++ "    PayloadMetricsResponse *p = (PayloadMetricsResponse *)obj;\n" ++ "\n"
      ++ "    printf(\"PayloadMetricsResponse %p =>\\n\", obj);\n" ++ "\n"
      ++ "    printf(\"correlation_id ==>\\n\");\n"
      ++ "    displayUINT16((void *)&p->correlation_id);\n" ++ "    printf(\"timestamp ==>\\n\");\n"
      ++ "    displayUINT64((void *)&p->timestamp);\n" ++ "    printf(\"used_counter ==>\\n\");\n"
      ++ "    displayUINT32((void *)&p->used_counter);\n" ++ "    printf(\"metrics ==>\\n\");\n"
      ++ "    for (int i = 0; i < 8; i++) {\n"
      ++ "        displayPayloadMetricsInfo((void *)&p->metrics[i]);\n" ++ "    }\n" ++ "\n" ++ "\n"
      ++ "}\n" ++ "\n" ++ "void\n"
      ++ "app_to_peer_PayloadMetricsResponse(const void *ptr_src_app, void *ptr_dst_peer)\n"
      ++ "{\n" ++ "    PayloadMetricsResponse *src = (PayloadMetricsResponse *)ptr_src_app;\n"
      ++ "    ::antaris_api_peer_to_peer::PayloadMetricsResponse *dst = (::antaris_api_peer_to_peer::PayloadMetricsResponse *)ptr_dst_peer;\n"
      ++ "\n" ++ "    UINT32 __tmp_correlation_id;\n" ++ "    UINT64 __tmp_timestamp;\n"
      ++ "    UINT32 __tmp_used_counter;\n" ++ "    PayloadMetricsInfo __tmp_metrics;\n" ++ "\n"
      ++ "    app_to_peer_UINT16(&src->correlation_id, &__tmp_correlation_id); // correlation_id\n"
      ++ "\n" ++ "    dst->set_correlation_id(__tmp_correlation_id);\n" ++ "\n"
      ++ "    app_to_peer_UINT64(&src->timestamp, &__tmp_timestamp); // timestamp\n" ++ "\n"
      ++ "    dst->set_timestamp(__tmp_timestamp);\n" ++ "\n"
      ++ "    app_to_peer_UINT32(&src->used_counter, &__tmp_used_counter); // used_counter\n"
      ++ "\n" ++ "    dst->set_used_counter(__tmp_used_counter);\n" ++ "\n"
      ++ "    for (int i = 0; i < 8; i++) { // metrics\n"
      ++ "        ::antaris_api_peer_to_peer::PayloadMetricsInfo *dst_info = dst->mutable_metrics(i);\n"
      ++ "        app_to_peer_PayloadMetricsInfo(&src->metrics[i], dst_info);\n" ++ "    }\n"
      ++ "\n" ++ "}\n" ++ "\n" ++ "void\n"
      ++ "peer_to_app_PayloadMetricsResponse(const void *ptr_src_peer, void *ptr_dst_app)\n"
      ++ "{\n" ++ "    PayloadMetricsResponse *dst = (PayloadMetricsResponse *)ptr_dst_app;\n"
      ++ "    ::antaris_api_peer_to_peer::PayloadMetricsResponse *src = (::antaris_api_peer_to_peer::PayloadMetricsResponse *)ptr_src_peer;\n"
      ++ "\n" ++ "    dst->correlation_id = src->correlation_id();\n"
      ++ "    dst->timestamp = src->timestamp();\n"
      ++ "    dst->used_counter = src->used_counter();\n"
      ++ "    for (int i = 0; i < 8; i++) { // metrics\n"
      ++ "        const ::antaris_api_peer_to_peer::PayloadMetricsInfo &src_info = src->metrics(i);\n"
      ++ "        PayloadMetricsInfo *dst_info = &dst->metrics[i];\n" ++ "\n"
      ++ "        peer_to_app_PayloadMetricsInfo(&src_info, dst_info);\n" ++ "    }\n" ++ "\n"
      ++ "}\n" ++ "\n",
)
unfolding Cpp.struct_source write for_each padded check_applicability
cpp_array_source = refl

cpp_enum : Cpp.enum_declaration return_code "" ≡ (
  ok tt,
  "/// @enum AntarisReturnCode\n" ++ "/// @brief Api return codes\n"
      ++ "typedef enum AntarisReturnCode {\n"
      ++ "    An_SUCCESS                       = 0,                               ///< Success\n"
      ++ "    An_GENERIC_FAILURE               = -1,                              ///< Generic failure\n"
      ++ "    An_NOT_IMPLEMENTED               = -2,                              ///< Feature/interface not implemented\n"
      ++ "    An_OUT_OF_RESOURCES              = -3,                              ///< Not enough resources\n"
      ++ "    An_NOT_PERMITTED                 = -4,                              ///< Operation not allowed\n"
      ++ "    An_INVALID_PARAMS                = -5,                              ///< Invalid parameter\n"
      ++ "    An_INCOMPATIBLE_VERSION          = -6,                              ///< Incompatible version of SDK invocation\n"
      ++ "} AntarisReturnCode;\n" ++ "\n" ++ "void displayAntarisReturnCode(void *obj);\n"
      ++ "void app_to_peer_AntarisReturnCode(void *ptr_src_app, void *ptr_dst_peer);\n"
      ++ "void peer_to_app_AntarisReturnCode(void *ptr_src_peer, void *ptr_dst_app);\n" ++ "\n",
)
unfolding Cpp.enum_declaration write for_each padded
cpp_enum = refl

cpp_enum_source : Cpp.enum_source return_code "" ≡ (
  ok tt,
  "void\n" ++ "displayAntarisReturnCode(void *obj)\n" ++ "{\n"
      ++ "    printf(\"%s => %d\\n\", \"AntarisReturnCode\", *(INT32 *)obj);\n" ++ "}\n" ++ "\n"
      ++ "void\n" ++ "app_to_peer_AntarisReturnCode(void *ptr_src_app, void *ptr_dst_peer)\n"
      ++ "{\n" ++ "    AntarisReturnCode *src = (AntarisReturnCode *)ptr_src_app;\n"
      ++ "    AntarisReturnCode *dst = (AntarisReturnCode *)ptr_dst_peer;\n" ++ "\n"
      ++ "    *dst = *src;\n" ++ "\n" ++ "}\n" ++ "\n",
)
unfolding Cpp.enum_source write for_each padded check_applicability
cpp_enum_source = refl

abbrev response_shutdown : Function
response_shutdown = record {
  name = some "api_pa_pc_response_shutdown";
  description = some "API to respond to shutdown request from PC";
  consumed_by = none;
  parameters =
      record {
        variable_name = some "channel";
        type = some "AntarisChannel";
        description = some "channel context for API execution";
        consumed_by = some "Application";
      }
      ∷ record {
        variable_name = some "response_shutdown_params";
        type = some "RespShutdownParams *";
        description = some "Shutdown response parameters";
        consumed_by = none;
      }
      ∷ [];
  return_spec = record { ret_app = some "AntarisReturnCode"; ret_peer = some "AntarisReturnType" };
}

cpp_function : Functions.write_function response_shutdown "" ≡ (
  ok tt,
  "/// @brief Function api_pa_pc_response_shutdown\n"
      ++ "/// @fn API to respond to shutdown request from PC\n" ++ "AntarisReturnCode\n"
      ++ "api_pa_pc_response_shutdown\n" ++ "(\n"
      ++ "    AntarisChannel                  channel,                         ///< @param channel context for API execution\n"
      ++ "    RespShutdownParams *            response_shutdown_params         ///< @param Shutdown response parameters\n"
      ++ ");\n" ++ "\n",
)
unfolding Functions.write_function write for_each padded get_return_type
cpp_function = refl

abbrev shutdown_app : Function
shutdown_app = record {
  name = some "ShutdownApp_Fptr";
  description = some "Callback request to shutdown application";
  consumed_by = none;
  parameters =
      record {
        variable_name = some "shutdown_params";
        type = some "ShutdownParams *";
        description = some "Shutdown request parameters";
        consumed_by = none;
      }
      ∷ [];
  return_spec = record { ret_app = some "AntarisReturnCode"; ret_peer = some "AntarisReturnType" };
}

cpp_callback : Functions.write_function_ptr shutdown_app "" ≡ (
  ok tt,
  "/// @brief Callback function type ShutdownApp_Fptr\n"
      ++ "/// @typedef Callback request to shutdown application\n" ++ "\n"
      ++ "typedef AntarisReturnCode\n" ++ "(*ShutdownApp_Fptr)\n" ++ "(\n"
      ++ "    ShutdownParams *                 ///< @param Shutdown request parameters\n" ++ ");\n"
      ++ "static inline void\n"
      ++ "displayShutdownApp_Fptr(void *obj) { printf(\"%p\\n\", obj); }\n",
)
unfolding Functions.write_function_ptr write for_each padded get_return_type
cpp_callback = refl
