-- ===== src/Emit/Keys.antt =====
-- trace2semconv.go: the keys of the attributes.
use trace2receiver.Common.{String}

abbrev pub trace2_service_namespace : String
trace2_service_namespace = "trace2"

abbrev pub trace2_instrumentation_name : String
trace2_instrumentation_name = "trace2receiver"

abbrev pub trace2_cmd_sid : String
trace2_cmd_sid = "trace2.cmd.sid"

abbrev pub trace2_cmd_argv : String
trace2_cmd_argv = "trace2.cmd.argv"

abbrev pub trace2_cmd_version : String
trace2_cmd_version = "trace2.cmd.version"

abbrev pub trace2_cmd_exit_code : String
trace2_cmd_exit_code = "trace2.cmd.exit_code"

abbrev pub trace2_cmd_name : String
trace2_cmd_name = "trace2.cmd.name"

abbrev pub trace2_cmd_name_verb : String
trace2_cmd_name_verb = "trace2.cmd.name_verb"

abbrev pub trace2_cmd_name_verb_mode : String
trace2_cmd_name_verb_mode = "trace2.cmd.name_verb_mode"

abbrev pub trace2_cmd_hierarchy : String
trace2_cmd_hierarchy = "trace2.cmd.hierarchy"

abbrev pub trace2_cmd_err_fmt : String
trace2_cmd_err_fmt = "trace2.cmd.error.format"

abbrev pub trace2_cmd_err_msg : String
trace2_cmd_err_msg = "trace2.cmd.error.message"

abbrev pub trace2_cmd_alias_key : String
trace2_cmd_alias_key = "trace2.cmd.alias.key"

abbrev pub trace2_cmd_alias_value : String
trace2_cmd_alias_value = "trace2.cmd.alias.value"

abbrev pub trace2_cmd_ancestry : String
trace2_cmd_ancestry = "trace2.cmd.ancestry"

abbrev pub trace2_span_type : String
trace2_span_type = "trace2.span.type"

abbrev pub trace2_child_pid : String
trace2_child_pid = "trace2.child.pid"

abbrev pub trace2_child_exit_code : String
trace2_child_exit_code = "trace2.child.exitcode"

abbrev pub trace2_child_argv : String
trace2_child_argv = "trace2.child.argv"

abbrev pub trace2_child_class : String
trace2_child_class = "trace2.child.class"

abbrev pub trace2_child_hook_name : String
trace2_child_hook_name = "trace2.child.hook"

abbrev pub trace2_child_ready_state : String
trace2_child_ready_state = "trace2.child.ready"

abbrev pub trace2_region_message : String
trace2_region_message = "trace2.region.message"

abbrev pub trace2_region_nesting : String
trace2_region_nesting = "trace2.region.nesting"

abbrev pub trace2_region_repo_id : String
trace2_region_repo_id = "trace2.region.repoid"

abbrev pub trace2_region_data : String
trace2_region_data = "trace2.region.data"

abbrev pub trace2_exec_exe : String
trace2_exec_exe = "trace2.exec.exe"

abbrev pub trace2_exec_argv : String
trace2_exec_argv = "trace2.exec.argv"

abbrev pub trace2_exec_exit_code : String
trace2_exec_exit_code = "trace2.exec.exitcode"

abbrev pub trace2_repo_set : String
trace2_repo_set = "trace2.repo.set"

abbrev pub trace2_param_set : String
trace2_param_set = "trace2.param.set"

abbrev pub trace2_process_data : String
trace2_process_data = "trace2.process.data"

abbrev pub trace2_process_timers : String
trace2_process_timers = "trace2.process.timers"

abbrev pub trace2_process_counters : String
trace2_process_counters = "trace2.process.counters"

abbrev pub trace2_thread_timers : String
trace2_thread_timers = "trace2.thread.timers"

abbrev pub trace2_thread_counters : String
trace2_thread_counters = "trace2.thread.counters"

abbrev pub trace2_go_arch : String
trace2_go_arch = "trace2.machine.arch"

abbrev pub trace2_go_os : String
trace2_go_os = "trace2.machine.os"

abbrev pub trace2_pii_hostname : String
trace2_pii_hostname = "trace2.pii.hostname"

abbrev pub trace2_pii_username : String
trace2_pii_username = "trace2.pii.username"
