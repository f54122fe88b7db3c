-- ===== src/Device.antt =====
-- Device drivers: kernel/include/device, kernel/src/device and the i386 ones.
pub mod VgaTextConsole
pub mod Keys
pub mod Keyboard
pub mod KeyboardStream
pub mod AtapiCommand
pub mod AtaDeviceDescriptor
