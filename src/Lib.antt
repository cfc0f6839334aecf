-- ===== src/Lib.antt =====
-- Antibawirus watches a machine for malicious behaviour. It has four parts, three of which are
-- console programs and the fourth a window that starts them and shows what they print:
--
--   Defensores de las Murallas/Ports_Scanner.c   scans the TCP ports of the local host
--   Patrullas Fronterizas/Fronteras.c            patrols the USB devices and the files on them
--   Guardia del tesoro real/                     watches the running processes
--   Salon/UI.c                                   the window
--
-- The programs share no memory: the window reads their standard output. Beside them stand small
-- programs that provoke the alerts of the patrol by hand, and earlier forms of the patrol and of
-- the window.
--
-- Common: the names of the library, Boolean tests and lists over native numbers (Common/Tests,
-- Common/Lists), signed integers (Common/Int), C strings as lists of character codes with strcmp,
-- strncmp, strstr, strrchr, fgets and snprintf (Common/Text), sscanf's conversions
-- (Common/Text/Scan), and results that may be undefined behaviour or a lack of fuel
-- (Common/Exec).
--
-- Scanner: Ports_Scanner.c. Scanner/Ports has the tables, get_service_name, is_common_port and
-- port_scanner; what socket and connect answer at each port is the record Net. Scanner/Split has
-- the arithmetic by which main shares the range among at most 64 threads, with the read of freed
-- memory as `none`, which main does when pthread_create has failed, or when the thread has ended
-- by then. Scanner/Main has main: the arguments, the ways a run ends, and the relation Merge of
-- the threads' lines to what is printed, since the mutex makes each line whole and leaves the
-- order open.
--
-- Patrol: Fronteras.c. Patrol/Files has ArchivoInfo and the split of a file name; Patrol/Listing
-- has listar_archivos; Patrol/Devices has obtener, mostrar, contar_dispositivos, alerta and
-- ensenar; Patrol/Compare has tamano, extension_permisos, timestamps_ownership, copia and
-- anadir_eliminar; Patrol/Audit has mostrar_proceso_modificador; Patrol/Rounds has main, whose
-- loop hands the devices, the files and the count of one round to the next. What udev, the mount
-- table and the file system answer in a round is the record World, and popen is a function from
-- commands to outputs, the same in all rounds: they are parameters. An alert stands for its
-- printf and the report behind it. The text of the messages is not modelled, only the values in
-- them.
--
-- Guard: Guardia del tesoro real. Guard/Monitor has monitor.c but init_tracker; Guard/Tracker has
-- init_tracker and, of guardia_info.c, update_process and cleanup on the array of processes, with
-- the slots that are not in use, since the code reads them. The operations on `float` are a
-- parameter, the record Floats. A write outside the array is the result `desborde`. Guard/Process
-- has process_info: what it reads of a process and which lines it prints. Guard/System has main
-- and process_info_thread: a relation of steps of the loop over /proc and of the detached
-- threads, where the files that a thread can read, the names in /proc and the slots that realloc
-- adds are what the record Entorno allows; `desbordado` is a write outside the array, and `nulo`
-- a read from the null pointer, which a process that has ended in the meantime causes.
-- Guard/Report has the text of the lines, as printf makes it.
--
-- Salon: Salon/UI.c. Salon/Glib and Salon/Buffer are the functions of GLib and GTK that the
-- models take as parameters, with the laws that the proofs use. Salon/Tables has the callbacks
-- read_guardia_info_table and read_guardia_alertas_table, from a line to the rows of a table, and
-- read_guardia_info. Salon/Window has the main window: on_scan_clicked, on_scan_port_clicked,
-- do_all, on_hide_text, refresh_usb_output, guardia_io_cb and usb_scan_thread on the global
-- variables, and a relation of steps that interleaves them; the scan of ports that is being read
-- is a stack of lines, since its loop handles other events, and so does the printing of an
-- export, which is two steps therefore, with other events between them; how many pages GTK draws
-- in an export is left open. What popen and g_spawn_async_with_pipes yield is an argument of each
-- handler. Salon/Monitors has on_monitoring_clicked and the windows of on_alertas_clicked and
-- on_all_processes_clicked, from the click to stop_table_guardia_info; `roto` is a use of the
-- freed structure. What Guard/Report prints is what Salon/Tables and Salon/Window/Watch read, and
-- the command of Salon/Window is what Scanner/Main is started with.
--
-- Provoke: the small programs that provoke alerts by hand. Provoke/Posix, Provoke/Descriptors and
-- Provoke/Stdio are the calls of the system on paths, on file descriptors and on streams, over an
-- unknown state of it, with records of what is documented of them; the models of the programs
-- take them as parameters. Of Patrullas Fronterizas, Provoke/Attributes has permisos.c,
-- propietario.c, fecha.c, extension.c and eliminar.c, Provoke/Growth has the loop of aumentar.c,
-- Provoke/Copy has copia.c, and Provoke/Creation has Crear.c. Of Tests_USB, Provoke/Expansion has
-- Test1_Growth.c, Provoke/Replication has Test2_Replication.c, and Provoke/Creation and
-- Provoke/Renaming have Test3_Permits.c, with Test4_Atributes.c in the former. A run comes to the
-- exit status and the state. No error of reading a stream occurs; fwrite and fclose may fail. The
-- modules named Alarm say what the patrol reports, from snapshots before and after.
--
-- Earlier: two earlier programs. Earlier/Outline and Earlier/Devices have Patrullas
-- Fronterizas/Patrullas.c: list_files, get_mount_point and main, whose calls of mkdtemp, mount,
-- umount and rmdir pass on a state of the system and may fail. Earlier/Panel has Salon/prueba.c:
-- the callback that reads, the two ways to close the window, and a relation of steps between
-- them. That no line can be read from an unbuffered channel is part of the model of GLib there.
--
-- Fuel: listar_archivos takes as fuel how deep directories may lie, and any number above the
-- depth of the tree, or above how many directories can be open at once, is enough. The loop of
-- cleanup takes the number of slots in use, each round passing or dropping one. The endless loop
-- of the patrol is a list of rounds, and that of the guard a relation of steps.
--
-- Integers: sizes, ports and counts are natural numbers, and differences of them are signed
-- integers without a bound, as the sizes of files and the times of processes stay far below 2^63.
--
-- The loop of aumentar takes one unit of fuel per block. The digits of a printed number take the
-- number plus one as fuel, and that is enough. The loop of copia.c takes one unit for each block
-- and one for the end of the file; list_files takes as fuel how deep directories may lie.
--
-- Not modelled: of Salon/UI.c, the building of widgets and the drawing of the exported pages; the
-- lines that the small programs print on the terminal, and the texts of errno; actualizar of
-- Fronteras.c, which only asks udev. Memory that malloc refuses is modelled for the table of
-- processes and for Test2_Replication.c only. scanf's conversions are those that the programs
-- use.
pub mod Common
pub mod Scanner
pub mod Patrol
pub mod Guard
pub mod Salon
pub mod Provoke
pub mod Earlier
